-- ===== src/Codec/Socket/Reader.antt =====
-- server/src/server.cpp, read_loop, and client/src/core.cpp, reader_loop: the loop that reads frames
-- until the stream ends, with what is done with a message as an argument, and its end.
use network_final_project.Base.{
  ℕ, zero, suc, ◌+◌, ◌-◌, ◌≤◌, ◌<◌, ◌≡◌, inl, inr, Bool, true, false, Option, none, some, List, [],
  ◌∷◌, arith, length, length-append, take, drop, Bool-cases,
}
use network_final_project.Base.Action.{ok, err, Result-cases}
use network_final_project.Codec.Json.{JsonApi}
use network_final_project.Codec.Message.{Message}
use network_final_project.Codec.Aes.{Evp}
use network_final_project.Codec.Frame.{decode_frame, payload_length}
use network_final_project.Codec.Socket.{
  Event, arrived, interrupted, failed, left_over, read_exact, read_frame,
}

module _ {J S : Type 0} (js : JsonApi J) (evp : Evp) (take_message : Message J → S → S) where
  -- A frame that does not decode is passed over.
  unfoldable pub received : List ℕ → S → S
  received frame s = elim (decode_frame js evp frame) [ err e ↦ s | ok msg ↦ take_message msg s ]

  -- `alive n` is what the loop finds in its flag before the n-th frame, and the fuel is the number
  -- of frames that it may read. `none` is a loop that goes on.
  unfoldable pub frame_loop : (ℕ → Bool) → ℕ → ℕ → List Event → S → Option S
  frame_loop alive zero n events s = none
  frame_loop alive (suc fuel) n events s = elim (alive n) [
    | false ↦ some s
    | true ↦ elim (read_frame events) [
      | err e ↦ some s
      | ok (frame, left) ↦ frame_loop alive fuel (suc n) left (received frame s)
    ]
  ]

-- One for each call of read(2) and for each byte.
abbrev pub size : List Event → ℕ
size [] = 0
size (arrived bs ∷ events) = suc (length bs + size events)
size (interrupted ∷ events) = suc (size events)
size (failed ∷ events) = suc (size events)

length-take-drop : (n : ℕ) (xs : List ℕ) → length (take n xs) + length (drop n xs) ≡ length xs
length-take-drop zero xs = omega arith
length-take-drop (suc n) [] = omega arith
length-take-drop (suc n) (x ∷ xs) = omega (arith, length-take-drop n xs)

size-left_over :
    (bs : List ℕ) (events : List Event) → size (left_over bs events) ≤ suc (length bs + size events)
size-left_over [] events = omega arith
size-left_over (b ∷ bs) events = omega arith

-- What was read is no longer in the stream.
size-read_exact :
    (events : List Event) (n : ℕ)
    → size (read_exact events n).events + length (read_exact events n).bytes ≤ size events
unfolding read_exact
size-read_exact events zero = omega arith
size-read_exact [] (suc n) = omega arith
size-read_exact (interrupted ∷ events) (suc n) = omega (arith, size-read_exact events (suc n))
size-read_exact (failed ∷ events) (suc n) = omega arith
size-read_exact (arrived [] ∷ events) (suc n) = omega arith
size-read_exact (arrived (b ∷ bs) ∷ events) (suc n) = ground (
  arith,
  size-read_exact events (suc n - length (b ∷ bs)),
  length-append (b ∷ bs) (read_exact events (suc n - length (b ∷ bs))).bytes,
  length-take-drop (suc n) (b ∷ bs),
  size-left_over (drop (suc n) (b ∷ bs)) events,
)

-- A frame takes its four bytes of length at least.
read_frame_shorter :
    (events : List Event) (found : List ℕ × List Event)
    → read_frame events ≡ ok found
    → size found.1 < size events
unfolding read_frame
read_frame_shorter events found e = ground (
  arith,
  size-read_exact events 4,
  size-read_exact (read_exact events 4).events (payload_length (read_exact events 4).bytes),
)

module _ {J S : Type 0} (js : JsonApi J) (evp : Evp) (take_message : Message J → S → S)
    (alive : ℕ → Bool) where
  -- The loop ends on every stream: more rounds than the stream has calls and bytes are enough.
  pub frame_loop_ends :
      (fuel n : ℕ) (events : List Event) (s : S)
      → size events < fuel
      → (s' : S) × (frame_loop js evp take_message alive fuel n events s ≡ some s')
  unfolding frame_loop
  frame_loop_ends zero n events s h = absurd (omega arith)
  frame_loop_ends (suc fuel) n events s h = elim (Bool-cases (alive n)) [
    | inl goes ↦ elim (Result-cases (read_frame events)) [
      | inl (error, e) ↦ (s, ground arith)
      | inr (found, e) ↦
          let (s', ends) =
            frame_loop_ends fuel (suc n) found.1 (received js evp take_message found.0 s)
              (omega (arith, read_frame_shorter events found e)) in
          (s', ground arith)
    ]
    | inr stopped ↦ (s, ground arith)
  ]

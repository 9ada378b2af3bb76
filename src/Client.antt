-- ===== src/Client.antt =====
-- client/src/core.cpp: the client's connection and its queue of events.
pub mod Life
pub mod State
pub mod Window
use network_final_project.Base.{
  ℕ, zero, suc, ◌<◌, ◌≡◌, refl, ◌∙◌, sym, ap, Bool, true, Option, none, some, List, [], ◌∷◌, ◌++◌,
  map, arith, length, if◌then◌else◌,
}
use mathlib.Core.List.{append-nil, append_assoc}
use network_final_project.Base.Action.{Result, ok, err}
use network_final_project.Codec.Json.{JsonApi, JsonLaws}
use network_final_project.Codec.Message.{Message}
use network_final_project.Codec.Aes.{Evp}
use network_final_project.Codec.Aes.Buffers.{EvpLaws}
use network_final_project.Codec.Frame.{encode_frame}
use network_final_project.Codec.Socket.{Event, Taking, write_frame}
use network_final_project.Codec.Socket.Stream.{bytes_of, is_live}
use network_final_project.Codec.Socket.Reader.{frame_loop}
use network_final_project.Codec.Socket.Messages.{Sends, arrival, take_all, frame_loop-Sends}

-- `ClientEvent`, whose only field is a message, and the queue of them, oldest first.
abbrev pub Queue : Type 0 → Type 0
Queue J = List (Message J)

module _ {J : Type 0} where
  abbrev pub push : Message J → Queue J → Queue J
  push msg queue = queue ++ msg ∷ []

  unfoldable pub pop_event : Queue J → Option (Message J) × Queue J
  pop_event [] = (none, [])
  pop_event (ev ∷ rest) = (some ev, rest)

  -- What so many calls of pop_event give, and the queue that they leave.
  unfoldable pub pop_events : ℕ → Queue J → List (Option (Message J)) × Queue J
  pop_events zero queue = ([], queue)
  pop_events (suc n) queue =
      let (ev, rest) = pop_event queue in
      let (later, left) = pop_events n rest in (ev ∷ later, left)

  push_all : (ms : List (Message J)) (queue : Queue J) → take_all push ms queue ≡ queue ++ ms
  push_all [] queue = sym (append-nil queue)
  push_all (m ∷ ms) queue = push_all ms (queue ++ m ∷ []) ∙ append_assoc queue (m ∷ []) ms

  pub pop_all : (queue : Queue J) → pop_events (length queue) queue ≡ (map some queue, [])
  unfolding pop_events pop_event
  pop_all [] = refl
  pop_all (m ∷ queue) = ground (arith, pop_all queue)

module _ {J : Type 0} (js : JsonApi J) (evp : Evp) where
  -- The bytes that went out, or the error.
  unfoldable pub send_message : Bool → List Taking → Message J → Result (List ℕ)
  send_message connected takings msg =
      if connected
      then (elim (encode_frame js evp msg) [
        | err error ↦ err error
        | ok frame ↦ write_frame takings frame
      ])
      else err "not connected"

  -- `connected n` is what the loop reads in `connected_` before the n-th frame.
  unfoldable pub reader_loop : (ℕ → Bool) → ℕ → List Event → Queue J → Option (Queue J)
  reader_loop connected fuel events queue = frame_loop js evp push connected fuel 0 events queue

  -- When OpenSSL and the JSON library behave as documented, and the client stays connected: on a
  -- stream that carries the frames of these messages and then ends, however it is cut, the loop
  -- leaves a queue of which pop_event gives what stood in it before and then every message once, in
  -- the order in which they were sent, and nothing more.
  pub pop_events-reader_loop :
      EvpLaws evp
      → JsonLaws js
      → (connected : ℕ → Bool) (ms : List (Message J)) (bytes : List ℕ) (fuel : ℕ)
        (events : List Event) (before : Queue J)
      → ((n : ℕ) → connected n ≡ true)
      → Sends js evp ms bytes
      → is_live events ≡ true
      → bytes_of events ≡ bytes
      → length ms < fuel
      → (queue : Queue J) × (reader_loop connected fuel events before ≡ some queue)
        × (pop_events (length queue) queue ≡ (map some (before ++ map (arrival js) ms), []))
  unfolding reader_loop
  pop_events-reader_loop evp_laws js_laws connected ms bytes fuel events before lasts sent live
        stream enough =
      (
        before ++ map (arrival js) ms,
        frame_loop-Sends js evp evp_laws js_laws push connected lasts ms bytes fuel 0 events before
              sent live stream enough
            ∙ ap some (push_all (map (arrival js) ms) before),
        pop_all (before ++ map (arrival js) ms),
      )

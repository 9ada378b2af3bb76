-- ===== src/Codec/Socket/Delivery.antt =====
-- common/src/codec.cpp: read_frame on a stream that is cut anywhere.
use network_final_project.Base.{
  ℕ, ◌+◌, ◌*◌, ◌/◌, ◌^◌, ◌≤◌, ◌<◌, ◌≡◌, refl, ◌∙◌, sym, ap, true, false, List, [], ◌∷◌, ◌++◌, arith,
  length, take, drop,
}
use mathlib.Core.List.{append-nil, append_assoc}
use network_final_project.Base.Action.{ok, err}
use network_final_project.Codec.Frame.{
  max_payload_size, word_bytes, prefix_of, payload_length, seal,
}
use network_final_project.Codec.Frame.Prefix.{payload_length-prefix_of}
use network_final_project.Codec.Frame.RoundTrip.{seal_lem}
use network_final_project.Codec.Aes.{Evp}
use network_final_project.Codec.Aes.Buffers.{EvpLaws}
use network_final_project.Codec.Json.{JsonApi}
use network_final_project.Codec.Utf8.{is_valid_utf8}
use network_final_project.Codec.Socket.{Event, read_exact, read_frame}
use network_final_project.Codec.Socket.Stream.{bytes_of, is_live, read_exact_lem}

take-prefix_of : (n : ℕ) (rest : List ℕ) → take 4 (prefix_of n ++ rest) ≡ prefix_of n
unfolding prefix_of word_bytes
take-prefix_of n rest = refl

drop-prefix_of : (n : ℕ) (rest : List ℕ) → drop 4 (prefix_of n ++ rest) ≡ rest
unfolding prefix_of word_bytes
drop-prefix_of n rest = refl

take-append : (xs ys : List ℕ) → take (length xs) (xs ++ ys) ≡ xs
take-append [] ys = refl
take-append (x ∷ xs) ys = ap (◌∷◌ x) (take-append xs ys)

drop-append : (xs ys : List ℕ) → drop (length xs) (xs ++ ys) ≡ ys
drop-append [] ys = refl
drop-append (x ∷ xs) ys = drop-append xs ys

payload_length_alone : (n : ℕ) → n < 2 ^ 32 → payload_length (prefix_of n) ≡ n
payload_length_alone n h =
    ap payload_length (sym (append-nil (prefix_of n))) ∙ payload_length-prefix_of n [] h

-- The prefix at the front of the stream.
prefix_read :
    (events : List Event) (n : ℕ) (rest : List ℕ)
    → is_live events ≡ true
    → bytes_of events ≡ prefix_of n ++ rest
    → ((read_exact events 4).bytes ≡ prefix_of n)
      × (bytes_of (read_exact events 4).events ≡ rest)
      × (is_live (read_exact events 4).events ≡ true)
      × ((read_exact events 4).is_error ≡ false)
prefix_read events n rest live stream =
    let (read, left, lives, fine) = read_exact_lem events 4 live in
    (
      read ∙ ap (take 4) stream ∙ take-prefix_of n rest,
      left ∙ ap (drop 4) stream ∙ drop-prefix_of n rest,
      lives,
      fine,
    )

-- The payload behind it.
payload_read :
    (events : List Event) (payload rest : List ℕ)
    → is_live events ≡ true
    → bytes_of events ≡ payload ++ rest
    → ((read_exact events (length payload)).bytes ≡ payload)
      × (bytes_of (read_exact events (length payload)).events ≡ rest)
      × (is_live (read_exact events (length payload)).events ≡ true)
      × ((read_exact events (length payload)).is_error ≡ false)
payload_read events payload rest live stream =
    let n = length payload in
    let (read, left, lives, fine) = read_exact_lem events n live in
    (
      read ∙ ap (take n) stream ∙ take-append payload rest,
      left ∙ ap (drop n) stream ∙ drop-append payload rest,
      lives,
      fine,
    )

length_prefix : (n : ℕ) → length (prefix_of n) ≡ 4
unfolding prefix_of word_bytes
length_prefix n = refl

read_none : (events : List Event) → events ≡ (read_exact events 0).events
unfolding read_exact
read_none events = refl

read_frame_shape :
    (events : List Event) (payload : List ℕ)
    → length payload ≤ max_payload_size
    → (read_exact events 4).is_error ≡ false
    → (read_exact events 4).bytes ≡ prefix_of (length payload)
    → (read_exact (read_exact events 4).events (length payload)).is_error ≡ false
    → (read_exact (read_exact events 4).events (length payload)).bytes ≡ payload
    → (left : List Event) × (read_frame events ≡ ok (prefix_of (length payload) ++ payload, left))
      × (left ≡ (read_exact (read_exact events 4).events (length payload)).events)
unfolding read_frame
read_frame_shape events [] fits fine prefix fine' body = (
  (read_exact events 4).events,
  ground (arith, length_prefix 0, payload_length_alone 0 (omega arith), append-nil (prefix_of 0)),
  read_none (read_exact events 4).events,
)
read_frame_shape events (b ∷ bs) fits fine prefix fine' body =
    let len = length (b ∷ bs) in
    (
      (read_exact (read_exact events 4).events len).events,
      ground (arith, length_prefix len, payload_length_alone len (omega arith)),
      refl,
    )

module _ (events : List Event) (live : is_live events ≡ true) where
  -- From a stream that lives, however it is cut, a frame of 1 MiB of payload at most at its front is
  -- read whole, and what stands behind it is left there.
  pub read_frame_lem :
      (payload rest : List ℕ)
      → length payload ≤ max_payload_size
      → bytes_of events ≡ prefix_of (length payload) ++ payload ++ rest
      → (left : List Event) × (read_frame events ≡ ok (prefix_of (length payload) ++ payload, left))
        × (bytes_of left ≡ rest)
        × (is_live left ≡ true)
  read_frame_lem payload rest fits stream =
      let (prefix, stream', live', fine) =
        prefix_read events (length payload) (payload ++ rest) live
          (stream ∙ append_assoc (prefix_of (length payload)) payload rest) in
      let (body, after, lives, fine') =
        payload_read (read_exact events 4).events payload rest live' stream' in
      let (left, result, same) = read_frame_shape events payload fits fine prefix fine' body in
      (left, result, ap bytes_of same ∙ after, ap is_live same ∙ lives)

  read_frame_refused :
      (n : ℕ) (rest : List ℕ)
      → max_payload_size < n
      → n < 2 ^ 32
      → bytes_of events ≡ prefix_of n ++ rest
      → read_frame events ≡ err "payload too large"
  unfolding read_frame
  read_frame_refused n rest big small stream =
      let (prefix, stream', live', fine) = prefix_read events n rest live stream in
      ground (arith, prefix, fine, length_prefix n, payload_length_alone n small)

  module _ {J : Type 0} (js : JsonApi J) (evp : Evp) (laws : EvpLaws evp) where
    sealed_frame :
        (text frame : List ℕ)
        → is_valid_utf8 text ≡ true
        → length text ≤ max_payload_size
        → seal js evp text ≡ ok frame
        → (c : List ℕ) × (frame ≡ prefix_of (length c) ++ c)
          × (length c ≡ (length text / 16 + 1) * 16)
    sealed_frame text frame valid fits sealed =
        let (c, shape, size, back) = seal_lem js evp laws text fits valid in
        (c, ground (arith, sealed, shape), size)

    -- When OpenSSL behaves as documented, the frame of a UTF-8 text under 1 MiB is read back whole
    -- from every stream that delivers it without a failing call, with what stands behind the frame
    -- left in the stream.
    pub read_frame-seal :
        (text frame rest : List ℕ)
        → is_valid_utf8 text ≡ true
        → length text < max_payload_size
        → seal js evp text ≡ ok frame
        → bytes_of events ≡ frame ++ rest
        → (left : List Event) × (read_frame events ≡ ok (frame, left))
          × (bytes_of left ≡ rest)
          × (is_live left ≡ true)
    read_frame-seal text frame rest valid fits sealed stream =
        let (c, shape, size) = sealed_frame text frame valid (omega arith) sealed in
        let (left, result, after, lives) =
          read_frame_lem c rest (omega arith) (stream ∙ ap (λ f. f ++ rest) shape) in
        (left, result ∙ ap (λ f. ok (f, left)) (sym shape), after, lives)

    -- When OpenSSL behaves as documented, a UTF-8 text of exactly 1 MiB has a frame that
    -- read_frame refuses from every stream that delivers it without a failing call.
    pub read_frame-seal_refused :
        (text frame rest : List ℕ)
        → is_valid_utf8 text ≡ true
        → length text ≡ max_payload_size
        → seal js evp text ≡ ok frame
        → bytes_of events ≡ frame ++ rest
        → read_frame events ≡ err "payload too large"
    read_frame-seal_refused text frame rest valid full sealed stream =
        let (c, shape, size) = sealed_frame text frame valid (omega arith) sealed in
        read_frame_refused (length c) (c ++ rest) (omega arith) (omega arith)
          (stream ∙ ap (λ f. f ++ rest) shape ∙ append_assoc (prefix_of (length c)) c rest)

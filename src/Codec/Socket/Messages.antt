-- ===== src/Codec/Socket/Messages.antt =====
-- server/src/server.cpp, read_loop, and client/src/core.cpp, reader_loop: what the loop makes of the
-- messages that the other side has encoded, however the stream cuts their frames.
use network_final_project.Base.{
  ℕ, zero, suc, ◌≤◌, ◌<◌, ◌^◌, ◌≡◌, ◌≢◌, ◌∙◌, ap, Bool, true, false, ◌&&◌, ◌||◌, some, List, [],
  ◌∷◌, ◌++◌, map, arith, length, take, if◌then◌else◌,
}
use network_final_project.Base.Action.{ok, err}
use network_final_project.Codec.Json.{JsonApi, JsonLaws}
use network_final_project.Codec.Message.{Message, is_response, is_unset, message_to_json}
use network_final_project.Codec.Utf8.{is_valid_utf8}
use network_final_project.Codec.Aes.{Evp}
use network_final_project.Codec.Aes.Buffers.{EvpLaws}
use network_final_project.Codec.Frame.{max_payload_size, encode_frame, decode_frame}
use network_final_project.Codec.Frame.RoundTrip.{decode_frame-encode_frame}
use network_final_project.Codec.Socket.{Event, read_exact, read_frame}
use network_final_project.Codec.Socket.Stream.{bytes_of, is_live, read_exact_lem}
use network_final_project.Codec.Socket.Delivery.{read_frame-seal}
use network_final_project.Codec.Socket.Reader.{received, frame_loop}

-- A message of the protocol, as the round trip of its frame asks for it, with a text below 1 MiB.
pub record IsSendable {J : Type 0} (js : JsonApi J) (m : Message J) : Type 0 where
  pub has_action : m.action ≢ ""
  pub has_data : (js.is_null m.payload || js.is_object m.payload) ≡ true
  pub has_status : (is_response m.type && is_unset m.status) ≡ false
  pub fits_clock : m.timestamp < 2 ^ 64
  pub parses : js.parse (js.dump (message_to_json js m)) ≡ some (message_to_json js m)
  pub is_text : is_valid_utf8 (js.dump (message_to_json js m)) ≡ true
  pub is_some_text : 1 ≤ length (js.dump (message_to_json js m))
  pub fits : length (js.dump (message_to_json js m)) < max_payload_size

-- How a message arrives: null data is an empty object.
abbrev pub arrival : {J : Type 0} → JsonApi J → Message J → Message J
arrival js m = record m { payload = if js.is_null m.payload then js.object else m.payload }

-- The frames of the messages that were sent, one behind the other.
pub data Sends {J : Type 0} (js : JsonApi J) (evp : Evp) : List (Message J) → List ℕ → Type 0 where
  silent : Sends js evp [] []
  sends :
      (m : Message J) (frame : List ℕ) (ms : List (Message J)) (bytes : List ℕ)
      → IsSendable js m
      → encode_frame js evp m ≡ ok frame
      → Sends js evp ms bytes
      → Sends js evp (m ∷ ms) (frame ++ bytes)

abbrev pub take_all : {J S : Type 0} → (Message J → S → S) → List (Message J) → S → S
take_all take_message [] s = s
take_all take_message (m ∷ ms) s = take_all take_message ms (take_message m s)

end_of_stream :
    (events : List Event)
    → is_live events ≡ true
    → bytes_of events ≡ []
    → read_frame events ≡ err "EOF"
unfolding read_frame
end_of_stream events live over =
    let (read, left, lives, fine) = read_exact_lem events 4 live in
    let nothing : (read_exact events 4).bytes ≡ [] = read ∙ ap (take 4) over in
    ground (arith, nothing, fine)

module _ {J : Type 0} (js : JsonApi J) (evp : Evp) (evp_laws : EvpLaws evp)
    (js_laws : JsonLaws js) where
  -- One frame at the front of the stream.
  pub one_frame :
      (m : Message J) (frame rest : List ℕ) (events : List Event)
      → IsSendable js m
      → encode_frame js evp m ≡ ok frame
      → is_live events ≡ true
      → bytes_of events ≡ frame ++ rest
      → (left : List Event) × (read_frame events ≡ ok (frame, left))
        × (bytes_of left ≡ rest)
        × (is_live left ≡ true)
        × (decode_frame js evp frame ≡ ok (arrival js m))
  one_frame m frame rest events good encoded live stream =
      let (left, read, after, lives) =
        read_frame-seal events live js evp evp_laws (js.dump (message_to_json js m)) frame rest
          good.is_text good.fits (unfold encode_frame in encoded) stream in
      let (frame', encoded', size, back) =
        decode_frame-encode_frame js evp evp_laws js_laws m good.has_action good.has_data
          good.has_status good.fits_clock good.parses good.is_text good.is_some_text
          (omega (arith, good.fits)) in
      (left, read, after, lives, ground arith)

module _ {J S : Type 0} (js : JsonApi J) (evp : Evp) (evp_laws : EvpLaws evp)
    (js_laws : JsonLaws js) (take_message : Message J → S → S) (alive : ℕ → Bool)
    (lasts : (n : ℕ) → alive n ≡ true) where
  -- When OpenSSL and the JSON library behave as documented, and the flag stays set: on a stream that
  -- carries the frames of these messages and then ends, however it is cut, the loop takes every
  -- message once, in the order in which they were sent, with one round more than there are messages.
  pub frame_loop-Sends :
      (ms : List (Message J)) (bytes : List ℕ) (fuel n : ℕ) (events : List Event) (s : S)
      → Sends js evp ms bytes
      → is_live events ≡ true
      → bytes_of events ≡ bytes
      → length ms < fuel
      → frame_loop js evp take_message alive fuel n events s
        ≡ some (take_all take_message (map (arrival js) ms) s)
  unfolding frame_loop received
  frame_loop-Sends ms bytes zero n events s sent live stream h = absurd (omega arith)
  frame_loop-Sends [] [] (suc fuel) n events s silent live stream h =
      ground (arith, lasts n, end_of_stream events live stream)
  frame_loop-Sends [] (b ∷ bytes) (suc fuel) n events s sent live stream h = elim sent [ ]
  frame_loop-Sends (m ∷ ms) _ (suc fuel) n events s (sends _ frame _ bytes good encoded others) live
        stream h =
      let (left, read, after, lives, back) =
        one_frame js evp evp_laws js_laws m frame bytes events good encoded live stream in
      ground (
        arith,
        lasts n,
        read,
        back,
        frame_loop-Sends ms bytes fuel (suc n) left (take_message (arrival js m) s) others lives
            after (omega arith),
      )

-- ===== src/Tests/Frames.antt =====
-- Runs of common/src/codec.cpp and common/src/aes_crypto.cpp with a toy JSON and a toy cipher.
use network_final_project.Base.{
  ℕ, zero, suc, ap, ◌∙◌, ◌+◌, ◌*◌, ◌/◌, ◌≤◌, ◌≡◌, ◌≢◌, refl, some, List, [], ◌∷◌, ◌++◌, true, arith,
  leb, length, eq_iff,
}
use network_final_project.Base.Action.{ok, err}
use network_final_project.Codec.Json.{JsonApi}
use network_final_project.Codec.Message.{
  Message, request, unset, message_to_json, type_to_string, put_text,
}
use network_final_project.Codec.Utf8.{is_valid_utf8, valid_from, remaining}
use network_final_project.Codec.Utf8.Encoded.{encoded, is_valid_utf8-encoded}
use network_final_project.Codec.Aes.{
  zeros, encrypt_aes_cbc, decrypt_aes_cbc, run_cipher, write_at, resize,
}
use network_final_project.Codec.Frame.{
  to_be32, word_bytes, prefix_of, seal, encode_frame, decode_frame, max_payload_size,
}
use network_final_project.Codec.Frame.RoundTrip.{seal_lem, decode_frame-encode_frame}
use network_final_project.Codec.Socket.{Event, arrived, interrupted, read_frame}
use network_final_project.Codec.Socket.Stream.{bytes_of, is_live}
use network_final_project.Codec.Socket.Delivery.{read_frame-seal_refused}
use network_final_project.Tests.Toys.{
  Json, empty, text, number, assigned, json_of, json_of-JsonLaws, pads, pads-EvpLaws,
}

abbrev pub login_request : Message Json
login_request = record {
  type = request;
  action = "LOGIN";
  timestamp = 1700000000;
  session_id = "";
  payload = assigned empty "username" (text "ann");
  status = unset;
  error_code = "";
  error_message = "";
}

abbrev pub login_json : Json
login_json =
    assigned
      (assigned (assigned (assigned empty "message_type" (text "REQUEST")) "action" (text "LOGIN"))
        "timestamp" (number 1700000000))
      "data" (assigned empty "username" (text "ann"))

abbrev pub toy : JsonApi Json
toy = json_of login_json

pub login_is_named : login_request.action ≢ ""
login_is_named = ground (arith, eq_iff "LOGIN" "")

json_written : message_to_json toy login_request ≡ login_json
unfolding message_to_json type_to_string put_text
json_written = refl

pub json_parsed :
    toy.parse (toy.dump (message_to_json toy login_request))
    ≡ some (message_to_json toy login_request)
unfolding message_to_json type_to_string put_text
json_parsed = refl

-- `é`, `中` and an emoji.
abbrev code_points : List ℕ
code_points = 0xe9 ∷ 0x4e2d ∷ 0x1f600 ∷ []

is_valid_utf8-encoded_example : is_valid_utf8 (encoded code_points) ≡ true
is_valid_utf8-encoded_example =
    is_valid_utf8-encoded code_points (omega arith, (omega arith, (omega arith, tt)))

pub braces_are_valid : is_valid_utf8 (123 ∷ 125 ∷ []) ≡ true
unfolding is_valid_utf8 valid_from remaining
braces_are_valid = refl

frame_round_trip_example :
    (frame : List ℕ) × (encode_frame toy pads login_request ≡ ok frame)
    × (length frame ≡ 4 + (2 / 16 + 1) * 16)
    × (decode_frame toy pads frame ≡ ok login_request)
frame_round_trip_example =
    decode_frame-encode_frame toy pads pads-EvpLaws (json_of-JsonLaws login_json) login_request
      login_is_named refl refl (omega arith) json_parsed braces_are_valid (omega arith)
      (omega arith)

-- The first byte alone, an EINTR, and the rest with a byte of the next frame.
abbrev cut_stream : List ℕ → List Event
cut_stream [] = []
cut_stream (b ∷ bs) = arrived (b ∷ []) ∷ interrupted ∷ arrived (bs ++ 9 ∷ []) ∷ []

abbrev pub small_frame : List ℕ
small_frame =
    0 ∷ 0 ∷ 0 ∷ 16 ∷ 123 ∷ 125 ∷ 14 ∷ 14 ∷ 14 ∷ 14 ∷ 14 ∷ 14 ∷ 14 ∷ 14 ∷ 14 ∷ 14 ∷ 14 ∷ 14 ∷ 14 ∷ 14
    ∷ []

pub small_sealed : seal toy pads (123 ∷ 125 ∷ []) ≡ ok small_frame
unfolding seal is_valid_utf8 valid_from remaining encrypt_aes_cbc run_cipher write_at resize
    prefix_of to_be32 word_bytes
small_sealed = refl

repeat_zeros : (n : ℕ) → length (zeros n) ≡ n
repeat_zeros zero = refl
repeat_zeros (suc n) = ap suc (repeat_zeros n)

leb_zero : (n : ℕ) → leb 0 n ≡ true
leb_zero n = ground arith

zeros_valid : (n : ℕ) → valid_from n (zeros n) ≡ true
unfolding valid_from remaining
zeros_valid zero = refl
zeros_valid (suc n) = rw (leb_zero (length (zeros n))) (zeros_valid n)

zeros_valid_utf8 : (n : ℕ) → is_valid_utf8 (zeros n) ≡ true
unfolding is_valid_utf8
zeros_valid_utf8 n = ap (λ k. valid_from k (zeros n)) (repeat_zeros n) ∙ zeros_valid n

-- A text of exactly 1 MiB, all bytes 0.
unfoldable full_text : List ℕ
full_text = zeros max_payload_size

full_length : length full_text ≡ max_payload_size
unfolding full_text
full_length = repeat_zeros max_payload_size

full_valid : is_valid_utf8 full_text ≡ true
unfolding full_text
full_valid = zeros_valid_utf8 max_payload_size

full_frame :
    (c : List ℕ) × (seal toy pads full_text ≡ ok (prefix_of (length c) ++ c))
    × (length c ≡ (length full_text / 16 + 1) * 16)
    × (decrypt_aes_cbc pads c ≡ ok full_text)
full_frame = seal_lem toy pads pads-EvpLaws full_text fits full_valid
  where
    fits : length full_text ≤ max_payload_size
    fits = omega (arith, full_length)

abbrev full_bytes : List ℕ
full_bytes = prefix_of (length full_frame.0) ++ full_frame.0

abbrev full_events : List Event
full_events = arrived full_bytes ∷ []

full_live : is_live full_events ≡ true
unfolding prefix_of word_bytes
full_live = refl

full_bytes-append : bytes_of full_events ≡ full_bytes ++ []
full_bytes-append = refl

read_frame_refused_example : read_frame full_events ≡ err "payload too large"
read_frame_refused_example =
    read_frame-seal_refused full_events full_live toy pads pads-EvpLaws full_text full_bytes []
      full_valid full_length full_frame.1 full_bytes-append

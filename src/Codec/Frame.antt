-- ===== src/Codec/Frame.antt =====
-- common/src/codec.cpp: to_be32, encode_frame and decode_frame. Bytes are numbers below 256, and
-- the machine is little-endian, so that memcpy of a word writes its lowest byte first.
pub mod Prefix
pub mod RoundTrip
use network_final_project.Base.{
  ℕ, zero, suc, ◌+◌, ◌*◌, ◌/◌, ◌%◌, ◌^◌, Bool, true, false, not, Option, none, some, List, [], ◌∷◌,
  ◌++◌, ltb, ◌==◌, if◌then◌else◌, length, take, drop, String,
}
use Prim.Native.String
use network_final_project.Base.Action.{Result, ok, err}
use network_final_project.Codec.Json.{JsonApi}
use network_final_project.Codec.Message.{Message, message_from_json, message_to_json}
use network_final_project.Codec.Utf8.{is_valid_utf8}
use network_final_project.Codec.Aes.{Evp, encrypt_aes_cbc, decrypt_aes_cbc}

abbrev pub frame_prefix_bytes : ℕ
frame_prefix_bytes = 4

abbrev pub max_payload_size : ℕ
max_payload_size = 1024 * 1024

-- The masks pick a byte, and `|` joins disjoint bits.
unfoldable pub to_be32 : ℕ → ℕ
to_be32 value =
    value % 256 * 2 ^ 24
    + value / 2 ^ 8 % 256 * 2 ^ 8 * 2 ^ 8
    + value / 2 ^ 16 % 256 * 2 ^ 16 / 2 ^ 8
    + value / 2 ^ 24 % 256 * 2 ^ 24 / 2 ^ 24

unfoldable pub from_be32 : ℕ → ℕ
from_be32 value = to_be32 value

-- `std::memcpy` from a `uint32_t`, and into one.
unfoldable pub word_bytes : ℕ → List ℕ
word_bytes w = w % 256 ∷ w / 2 ^ 8 % 256 ∷ w / 2 ^ 16 % 256 ∷ w / 2 ^ 24 % 256 ∷ []

unfoldable pub bytes_word : List ℕ → ℕ
bytes_word [] = 0
bytes_word (b ∷ bs) = b + 256 * bytes_word bs

-- The length prefix of a payload.
unfoldable pub prefix_of : ℕ → List ℕ
prefix_of len = word_bytes (to_be32 (len % 2 ^ 32))

-- The payload length that the first four bytes of a frame give.
unfoldable pub payload_length : List ℕ → ℕ
payload_length frame = from_be32 (bytes_word (take frame_prefix_bytes frame))

module _ {J : Type 0} (js : JsonApi J) (evp : Evp) where
  -- The frame of a text.
  unfoldable pub seal : List ℕ → Result (List ℕ)
  seal text =
      if ltb max_payload_size (length text)
      then err "payload too large"
      else if not (is_valid_utf8 text)
      then err "payload not valid UTF-8"
      else elim (encrypt_aes_cbc evp text) [
        | err e ↦ err (String.◌++◌ "encryption failed: " e)
        | ok [] ↦ err "encryption failed: "
        | ok (b ∷ bs) ↦ ok (prefix_of (length (b ∷ bs)) ++ b ∷ bs)
      ]

  unfoldable pub encode_frame : Message J → Result (List ℕ)
  encode_frame msg = seal (js.dump (message_to_json js msg))

  -- The text that was decrypted, read as a message. `parse` throws with a text of its own.
  unfoldable pub read_payload : List ℕ → Result (Message J)
  read_payload payload =
      if ltb max_payload_size (length payload)
      then err "decrypted payload too large"
      else if not (is_valid_utf8 payload)
      then err "decrypted payload not valid UTF-8"
      else elim (js.parse payload) [
        | none ↦ err "JSON parse error: "
        | some j ↦ message_from_json js j
      ]

  unfoldable pub decode_frame : List ℕ → Result (Message J)
  decode_frame frame =
      if ltb (length frame) frame_prefix_bytes
      then err "frame too small"
      else if not (length frame == frame_prefix_bytes + payload_length frame)
      then err "payload length mismatch"
      else elim (decrypt_aes_cbc evp (drop frame_prefix_bytes frame)) [
        | err e ↦ err (String.◌++◌ "decryption failed: " e)
        | ok [] ↦ err "decryption failed: "
        | ok (b ∷ bs) ↦ read_payload (b ∷ bs)
      ]

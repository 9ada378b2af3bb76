-- ===== src/Codec/Frame/RoundTrip.antt =====
-- common/src/codec.cpp: encode_frame, then decode_frame, on the messages of the protocol.
use network_final_project.Base.{
  ℕ, ◌+◌, ◌*◌, ◌/◌, ◌^◌, ◌≤◌, ◌<◌, ◌≡◌, ◌≢◌, refl, ◌∙◌, ap, true, false, ◌||◌, ◌&&◌, some, List, [],
  ◌∷◌, ◌++◌, arith, if◌then◌else◌, length, drop,
}
use network_final_project.Base.Action.{ok}
use network_final_project.Codec.Json.{JsonApi, JsonLaws}
use network_final_project.Codec.Message.{
  Message, message_from_json, message_to_json, is_response, is_unset,
}
use network_final_project.Codec.Message.RoundTrip.{message_from_json-message_to_json}
use network_final_project.Codec.Utf8.{is_valid_utf8}
use network_final_project.Codec.Aes.{Evp, encrypt_aes_cbc, decrypt_aes_cbc}
use network_final_project.Codec.Aes.Buffers.{EvpLaws, decrypt_aes_cbc-encrypt_aes_cbc}
use network_final_project.Codec.Frame.{
  max_payload_size, word_bytes, prefix_of, seal, encode_frame, read_payload, decode_frame,
}
use network_final_project.Codec.Frame.Prefix.{payload_length-prefix_of}

pub length-prefix_of : (n : ℕ) (rest : List ℕ) → length (prefix_of n ++ rest) ≡ 4 + length rest
unfolding prefix_of word_bytes
length-prefix_of n rest = omega arith

drop-prefix_of : (n : ℕ) (rest : List ℕ) → drop 4 (prefix_of n ++ rest) ≡ rest
unfolding prefix_of word_bytes
drop-prefix_of n rest = refl

module _ {J : Type 0} (js : JsonApi J) (evp : Evp) (laws : EvpLaws evp) where
  seal-eq-ok :
      (text c : List ℕ)
      → length text ≤ max_payload_size
      → is_valid_utf8 text ≡ true
      → encrypt_aes_cbc evp text ≡ ok c
      → 1 ≤ length c
      → seal js evp text ≡ ok (prefix_of (length c) ++ c)
  unfolding seal
  seal-eq-ok text [] fits valid sealed some_bytes = absurd (omega arith)
  seal-eq-ok text (b ∷ bs) fits valid sealed some_bytes = ground arith

  -- A text that fits is sealed into its length and whole blocks.
  pub seal_lem :
      (text : List ℕ)
      → length text ≤ max_payload_size
      → is_valid_utf8 text ≡ true
      → (c : List ℕ) × (seal js evp text ≡ ok (prefix_of (length c) ++ c))
        × (length c ≡ (length text / 16 + 1) * 16)
        × (decrypt_aes_cbc evp c ≡ ok text)
  seal_lem text fits valid =
      let (c, sealed, size, back) = decrypt_aes_cbc-encrypt_aes_cbc evp laws text in
      (c, seal-eq-ok text c fits valid sealed (omega arith), size, back)

  decode_frame_lem :
      (c text : List ℕ)
      → 1 ≤ length text
      → length c < 2 ^ 32
      → decrypt_aes_cbc evp c ≡ ok text
      → decode_frame js evp (prefix_of (length c) ++ c) ≡ read_payload js evp text
  unfolding decode_frame
  decode_frame_lem c [] some_text small back = absurd (omega arith)
  decode_frame_lem c (b ∷ bs) some_text small back = ground (
    arith,
    length-prefix_of (length c) c,
    drop-prefix_of (length c) c,
    payload_length-prefix_of (length c) c small,
  )

  read_payload_lem :
      (text : List ℕ) (j : J)
      → length text ≤ max_payload_size
      → is_valid_utf8 text ≡ true
      → js.parse text ≡ some j
      → read_payload js evp text ≡ message_from_json js j
  unfolding read_payload
  read_payload_lem text j fits valid parsed = ground arith

  -- When OpenSSL and the JSON library behave as documented: a message with an action and an object
  -- or null as its data, with a status if it is a response and a 64-bit timestamp, whose JSON text
  -- is not empty, has 1 MiB at most, is UTF-8 and parses back, has a frame of whole blocks behind
  -- four bytes. The frame decodes to the message, but that null data comes back as an empty
  -- object.
  pub decode_frame-encode_frame :
      JsonLaws js
      → (m : Message J) → m.action ≢ ""
      → (js.is_null m.payload || js.is_object m.payload) ≡ true
      → (is_response m.type && is_unset m.status) ≡ false
      → m.timestamp < 2 ^ 64
      → js.parse (js.dump (message_to_json js m)) ≡ some (message_to_json js m)
      → is_valid_utf8 (js.dump (message_to_json js m)) ≡ true
      → 1 ≤ length (js.dump (message_to_json js m))
      → length (js.dump (message_to_json js m)) ≤ max_payload_size
      → (frame : List ℕ) × (encode_frame js evp m ≡ ok frame)
        × (length frame ≡ 4 + (length (js.dump (message_to_json js m)) / 16 + 1) * 16)
        × (decode_frame js evp frame
            ≡ ok (record m { payload = if js.is_null m.payload then js.object else m.payload }))
  unfolding encode_frame
  decode_frame-encode_frame json m named object_data answered small parsed valid some_text fits =
      let text = js.dump (message_to_json js m) in
      let (c, sealed, size, back) = seal_lem text fits valid in
      (
        prefix_of (length c) ++ c,
        sealed,
        length-prefix_of (length c) c ∙ ap (λ n. 4 + n) size,
        decode_frame_lem c text some_text (omega arith) back
            ∙ read_payload_lem text (message_to_json js m) fits valid parsed
            ∙ message_from_json-message_to_json js json m named object_data answered small,
      )

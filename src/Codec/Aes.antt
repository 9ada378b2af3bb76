-- ===== src/Codec/Aes.antt =====
-- common/src/aes_crypto.cpp: AES-256-CBC by OpenSSL's EVP calls. OpenSSL is a parameter, under the
-- key and the IV of the source; the buffers are the source's.
pub mod Buffers
use network_final_project.Base.{
  ℕ, zero, suc, ◌+◌, ◌-◌, ◌*◌, ◌/◌, ◌≤◌, ◌≡◌, Bool, true, false, Option, none, some, List, [], ◌∷◌,
  ◌++◌, length, take, drop, String, not,
}
use network_final_project.Base.Action.{Result, ok, err}

-- `init` is whether EVP_…Init_ex returns 1. `update text` and `final text` are what is written out
-- when `text` has gone in, with `none` for a call that does not return 1.
pub record Cipher : Type 0 where
  pub init : Bool
  pub update : List ℕ → Option (List ℕ)
  pub final : List ℕ → Option (List ℕ)

pub record Evp : Type 0 where
  -- EVP_CIPHER_CTX_new gives a context.
  pub has_context : Bool
  pub block_size : ℕ
  pub encryption : Cipher
  pub decryption : Cipher

-- `std::vector<uint8_t> v(n)`.
abbrev pub zeros : ℕ → List ℕ
zeros zero = []
zeros (suc n) = 0 ∷ zeros n

-- A write of bytes into a buffer from an offset on.
unfoldable pub write_at : List ℕ → ℕ → List ℕ → List ℕ
write_at buffer offset bytes = take offset buffer ++ bytes ++ drop (offset + length bytes) buffer

-- `v.resize(n)`.
unfoldable pub resize : ℕ → List ℕ → List ℕ
resize n buffer = take n buffer ++ zeros (n - length buffer)

-- The common body of both functions: `op` is the name in the error texts.
unfoldable pub run_cipher : Evp → Cipher → String → String → String → List ℕ → Result (List ℕ)
run_cipher evp cipher no_init no_update no_final input = elim evp.has_context [
  | false ↦ err "Failed to create EVP cipher context"
  | true ↦ elim cipher.init [
    | false ↦ err no_init
    | true ↦ elim (cipher.update input) [
      | none ↦ err no_update
      | some first_part ↦ elim (cipher.final input) [
        | none ↦ err no_final
        | some last_part ↦ ok (
            resize (length first_part + length last_part) (
              write_at (write_at (zeros (length input + evp.block_size)) 0 first_part)
                (length first_part) last_part))
      ]
    ]
  ]
]

unfoldable pub encrypt_aes_cbc : Evp → List ℕ → Result (List ℕ)
encrypt_aes_cbc evp plaintext =
    run_cipher evp evp.encryption "EVP_EncryptInit_ex failed" "EVP_EncryptUpdate failed"
      "EVP_EncryptFinal_ex failed" plaintext

unfoldable pub decrypt_aes_cbc : Evp → List ℕ → Result (List ℕ)
decrypt_aes_cbc evp ciphertext =
    run_cipher evp evp.decryption "EVP_DecryptInit_ex failed" "EVP_DecryptUpdate failed"
      "EVP_DecryptFinal_ex failed - invalid padding or wrong key" ciphertext

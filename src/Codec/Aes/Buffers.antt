-- ===== src/Codec/Aes/Buffers.antt =====
-- common/src/aes_crypto.cpp: the size of the buffers, and what they hold in the end.
use network_final_project.Base.{
  ℕ, zero, suc, ◌+◌, ◌-◌, ◌*◌, ◌/◌, ◌≤◌, ◌≡◌, refl, ◌∙◌, sym, ap, true, some, List, [], ◌∷◌, ◌++◌,
  arith, length, take, drop, length-append, String,
}
use mathlib.Core.List.{append-nil}
use network_final_project.Base.Action.{ok}
use network_final_project.Codec.Aes.{
  Cipher, Evp, zeros, write_at, resize, run_cipher, encrypt_aes_cbc, decrypt_aes_cbc,
}

-- What OpenSSL documents of both directions: a call writes no more than the input and one block.
abbrev pub Fits : ℕ → Cipher → Type 0
Fits block cipher =
    (input a b : List ℕ)
    → cipher.update input ≡ some a
    → cipher.final input ≡ some b
    → length a + length b ≤ length input + block

-- CBC with PKCS#7 padding: every call returns 1 on what was encrypted, the ciphertext fills whole
-- blocks of 16 bytes past the plaintext, and decryption gives the plaintext back.
pub record EvpLaws (evp : Evp) : Type 0 where
  pub context_lem : evp.has_context ≡ true
  pub block_lem : evp.block_size ≡ 16
  pub encryption_init : evp.encryption.init ≡ true
  pub decryption_init : evp.decryption.init ≡ true
  pub encryption_fits : Fits 16 evp.encryption
  pub decryption_fits : Fits 16 evp.decryption
  pub encrypts :
      (p : List ℕ)
      → (a : List ℕ) × (b : List ℕ) × (evp.encryption.update p ≡ some a)
        × (evp.encryption.final p ≡ some b)
        × (length a + length b ≡ (length p / 16 + 1) * 16)
  pub decrypts :
      (p a b : List ℕ)
      → evp.encryption.update p ≡ some a
      → evp.encryption.final p ≡ some b
      → (c : List ℕ) × (d : List ℕ) × (evp.decryption.update (a ++ b) ≡ some c)
        × (evp.decryption.final (a ++ b) ≡ some d)
        × (c ++ d ≡ p)

length-zeros : (n : ℕ) → length (zeros n) ≡ n
length-zeros zero = refl
length-zeros (suc n) = ap suc (length-zeros n)

length-drop : (n : ℕ) (xs : List ℕ) → length (drop n xs) ≡ length xs - n
length-drop zero xs = omega arith
length-drop (suc n) [] = omega arith
length-drop (suc n) (x ∷ xs) = omega (arith, length-drop n xs)

take-append_length : (n : ℕ) (xs ys : List ℕ) → n ≡ length xs → take n (xs ++ ys) ≡ xs
take-append_length zero [] ys e = refl
take-append_length zero (x ∷ xs) ys e = absurd (omega arith)
take-append_length (suc n) [] ys e = absurd (omega arith)
take-append_length (suc n) (x ∷ xs) ys e = ap (◌∷◌ x) (take-append_length n xs ys (omega arith))

-- Two writes that fit, one behind the other, and the resize, leave what was written.
written :
    (n : ℕ) (a b : List ℕ)
    → length a + length b ≤ n
    → resize (length a + length b) (write_at (write_at (zeros n) 0 a) (length a) b) ≡ a ++ b
unfolding resize write_at
written n a b fits =
    let n_a = length a in
    let rest = drop (n_a + length b) (a ++ drop (0 + n_a) (zeros n)) in
    let pad : (n_a + length b) - length ((a ++ b) ++ rest) ≡ 0 =
      omega (arith, length-append (a ++ b) rest, length-append a b) in
    rw
      (
        take-append_length n_a a (drop (0 + n_a) (zeros n)) refl,
        take-append_length (n_a + length b) (a ++ b) rest (sym (length-append a b)),
        pad,
      )
      (append-nil (a ++ b))

run_cipher-eq-ok :
    (evp : Evp) (cipher : Cipher) (e₁ e₂ e₃ : String) (input a b : List ℕ)
    → evp.has_context ≡ true
    → cipher.init ≡ true
    → cipher.update input ≡ some a
    → cipher.final input ≡ some b
    → length a + length b ≤ length input + evp.block_size
    → run_cipher evp cipher e₁ e₂ e₃ input ≡ ok (a ++ b)
unfolding run_cipher
run_cipher-eq-ok evp cipher e₁ e₂ e₃ input a b c i u f fits =
    ground (arith, written (length input + evp.block_size) a b fits)

module _ (evp : Evp) (laws : EvpLaws evp) where
  -- When OpenSSL behaves as documented, every plaintext is encrypted into whole blocks, more bytes
  -- than it has by 1 to 16, and decrypts to itself.
  pub decrypt_aes_cbc-encrypt_aes_cbc :
      (p : List ℕ)
      → (c : List ℕ) × (encrypt_aes_cbc evp p ≡ ok c)
        × (length c ≡ (length p / 16 + 1) * 16)
        × (decrypt_aes_cbc evp c ≡ ok p)
  unfolding encrypt_aes_cbc decrypt_aes_cbc
  decrypt_aes_cbc-encrypt_aes_cbc p =
      let (a, b, ua, fb, size) = laws.encrypts p in
      let (c, d, uc, fd, back) = laws.decrypts p a b ua fb in
      let block = laws.block_lem in
      (
        a ++ b,
        run_cipher-eq-ok evp evp.encryption _ _ _ p a b laws.context_lem laws.encryption_init ua fb
            (omega (arith, laws.encryption_fits p a b ua fb)),
        length-append a b ∙ size,
        run_cipher-eq-ok evp evp.decryption _ _ _ (a ++ b) c d laws.context_lem laws.decryption_init
              uc fd (omega (arith, laws.decryption_fits (a ++ b) c d uc fd))
            ∙ ap ok back,
      )

-- ===== src/Codec/Frame/Prefix.antt =====
-- common/src/codec.cpp: the length prefix, written and read.
use network_final_project.Base.{
  ℕ, ◌+◌, ◌*◌, ◌/◌, ◌%◌, ◌^◌, ◌<◌, ◌≡◌, ◌∙◌, ap, List, [], ◌∷◌, ◌++◌, arith,
}
use network_final_project.Codec.Frame.{
  to_be32, from_be32, word_bytes, bytes_word, prefix_of, payload_length,
}

bytes_eq :
    (a b c d a' b' c' d' : ℕ)
    → a ≡ a'
    → b ≡ b'
    → c ≡ c'
    → d ≡ d'
    → (a ∷ b ∷ c ∷ d ∷ []) ≡ (a' ∷ b' ∷ c' ∷ d' ∷ [])
bytes_eq a b c d a' b' c' d' p q r s = cc

-- The byte swap of four bytes.
swap_lem :
    (a b c d : ℕ)
    → a < 256
    → b < 256
    → c < 256
    → d < 256
    → to_be32 (a + 256 * b + 65536 * c + 16777216 * d) ≡ d + 256 * c + 65536 * b + 16777216 * a
unfolding to_be32
swap_lem a b c d ha hb hc hd = omega arith

word_bytes_lem :
    (a b c d : ℕ)
    → a < 256
    → b < 256
    → c < 256
    → d < 256
    → word_bytes (a + 256 * b + 65536 * c + 16777216 * d) ≡ a ∷ b ∷ c ∷ d ∷ []
unfolding word_bytes
word_bytes_lem a b c d ha hb hc hd =
    bytes_eq _ _ _ _ _ _ _ _ (omega arith) (omega arith) (omega arith) (omega arith)

-- The byte swap: its bytes, lowest first, are those of the value, highest first.
pub prefix_of_lem :
    (len : ℕ)
    → len < 2 ^ 32
    → prefix_of len ≡ (len / 2 ^ 24) ∷ (len / 2 ^ 16 % 256) ∷ (len / 2 ^ 8 % 256) ∷ (len % 256) ∷ []
unfolding prefix_of
prefix_of_lem len h =
    let a = len % 256 in
    let b = len / 2 ^ 8 % 256 in
    let c = len / 2 ^ 16 % 256 in
    let d = len / 2 ^ 24 in
    let whole : len % 2 ^ 32 ≡ a + 256 * b + 65536 * c + 16777216 * d = omega arith in
    let hd : d < 256 = omega arith in
    ap (λ n. word_bytes (to_be32 n)) whole
    ∙ ap word_bytes (swap_lem a b c d (omega arith) (omega arith) (omega arith) hd)
    ∙ word_bytes_lem d c b a hd (omega arith) (omega arith) (omega arith)

-- The value that four bytes in front of a payload give.
bytes_value :
    (a b c d : ℕ) (rest : List ℕ)
    → a < 256
    → b < 256
    → c < 256
    → d < 256
    → payload_length ((a ∷ b ∷ c ∷ d ∷ []) ++ rest) ≡ d + 256 * c + 65536 * b + 16777216 * a
unfolding payload_length bytes_word from_be32
bytes_value a b c d rest ha hb hc hd = ap to_be32 (omega arith) ∙ swap_lem a b c d ha hb hc hd

-- The length prefix of every length below 2 ^ 32 reads back, whatever stands behind it.
pub payload_length-prefix_of :
    (len : ℕ) (rest : List ℕ) → len < 2 ^ 32 → payload_length (prefix_of len ++ rest) ≡ len
payload_length-prefix_of len rest h =
    ap (λ p. payload_length (p ++ rest)) (prefix_of_lem len h)
    ∙ bytes_value (len / 2 ^ 24) (len / 2 ^ 16 % 256) (len / 2 ^ 8 % 256) (len % 256) rest
        (omega arith) (omega arith) (omega arith) (omega arith)
    ∙ omega arith

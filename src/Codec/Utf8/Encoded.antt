-- ===== src/Codec/Utf8/Encoded.antt =====
-- common/src/codec.cpp: is_valid_utf8 on texts that are encoded by the definition in RFC 3629.
use network_final_project.Base.{
  ℕ, ◌+◌, ◌/◌, ◌%◌, ◌<◌, ◌≡◌, refl, true, some, List, [], ◌∷◌, ◌++◌, arith, length, ltb, ◌==◌,
  if◌then◌else◌,
}
use network_final_project.Codec.Utf8.{remaining, continues, is_valid_utf8}
use network_final_project.Codec.Utf8.Shape.{IsShaped, nil, sequence, is_valid_utf8_iff}

-- A continuation byte, with the lowest six bits of `n`.
abbrev low_bits : ℕ → ℕ
low_bits n = 0x80 + n % 64

abbrev lead_byte : ℕ → ℕ
lead_byte c =
    if ltb c 0x80
    then c
    else if ltb c 0x800
    then 0xc0 + c / 64
    else if ltb c 0x10000
    then 0xe0 + c / 4096
    else 0xf0 + c / 262144

abbrev tail_bytes : ℕ → List ℕ
tail_bytes c =
    if ltb c 0x80
    then []
    else if ltb c 0x800
    then low_bits c ∷ []
    else if ltb c 0x10000
    then low_bits (c / 64) ∷ low_bits c ∷ []
    else low_bits (c / 4096) ∷ low_bits (c / 64) ∷ low_bits c ∷ []

-- The bytes of a row of code points.
abbrev pub encoded : List ℕ → List ℕ
encoded [] = []
encoded (c ∷ cs) = lead_byte c ∷ tail_bytes c ++ encoded cs

abbrev pub AreCodePoints : List ℕ → Type 0
AreCodePoints [] = Unit
AreCodePoints (c ∷ cs) = (c < 0x110000) × AreCodePoints cs

remaining-lead_byte :
    (c : ℕ) → c < 0x110000 → remaining (lead_byte c) ≡ some (length (tail_bytes c))
unfolding remaining
remaining-lead_byte c h = ground arith

low_bits_continue : (n : ℕ) → (low_bits n / 64 == 0x2) ≡ true
low_bits_continue n = ground arith

continues-tail_bytes : (c : ℕ) → continues (tail_bytes c) ≡ true
continues-tail_bytes c =
    ground (arith, low_bits_continue c, low_bits_continue (c / 64), low_bits_continue (c / 4096))

encoded-IsShaped : (cs : List ℕ) → AreCodePoints cs → IsShaped (encoded cs)
encoded-IsShaped [] v = nil
encoded-IsShaped (c ∷ cs) v =
    sequence (lead_byte c) (tail_bytes c) (encoded cs) _ (remaining-lead_byte c v.0)
      (continues-tail_bytes c) (encoded-IsShaped cs v.1) refl

-- The UTF-8 encoding of every row of code points up to U+10FFFF is accepted.
pub is_valid_utf8-encoded : (cs : List ℕ) → AreCodePoints cs → is_valid_utf8 (encoded cs) ≡ true
is_valid_utf8-encoded cs v = (is_valid_utf8_iff (encoded cs)).1 (encoded-IsShaped cs v)

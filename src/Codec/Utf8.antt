-- ===== src/Codec/Utf8.antt =====
-- common/src/codec.cpp: is_valid_utf8 on the bytes of a text.
pub mod Shape
pub mod Encoded
use network_final_project.Base.{
  ℕ, zero, suc, ◌/◌, ◌%◌, Bool, true, false, not, ◌&&◌, Option, none, some, List, [], ◌∷◌, ltb, leb,
  ◌==◌, if◌then◌else◌, length, take, drop,
}

-- How many bytes follow a lead byte; `none` for a byte that leads nothing. `c >> k` is `c / 2 ^ k`,
-- and `c & 0x1E` is 0 where the bits above the lowest are.
unfoldable pub remaining : ℕ → Option ℕ
remaining c =
    if leb c 0x7f
    then some 0
    else if c / 32 == 0x6
    then (if c / 2 % 16 == 0 then none else some 1)
    else if c / 16 == 0xe
    then some 2
    else if c / 8 == 0x1e
    then some 3
    else none

-- `(b >> 6) == 0x2` for each of the bytes.
abbrev pub continues : List ℕ → Bool
continues [] = true
continues (b ∷ bs) = (b / 64 == 0x2) && continues bs

-- The loop from a byte on; each round takes a byte at least, so the number of bytes is fuel enough.
unfoldable pub valid_from : ℕ → List ℕ → Bool
valid_from fuel [] = true
valid_from zero (c ∷ rest) = false
valid_from (suc fuel) (c ∷ rest) = elim (remaining c) [
  | none ↦ false
  | some n ↦
      if leb n (length rest) && continues (take n rest)
      then valid_from fuel (drop n rest)
      else false
]

unfoldable pub is_valid_utf8 : List ℕ → Bool
is_valid_utf8 s = valid_from (length s) s

-- ===== src/Codec/Utf8/Shape.antt =====
-- common/src/codec.cpp: is_valid_utf8 and the rows of lead bytes with their continuation bytes.
use network_final_project.Base.{
  ℕ, zero, suc, ◌≤◌, ◌≡◌, refl, ◌↔◌, ap, true, some, List, [], ◌∷◌, ◌++◌, arith, length, take, drop,
  length-append, inl, inr, Option-cases,
}
use network_final_project.Codec.Utf8.{remaining, continues, valid_from, is_valid_utf8}

-- A text made of sequences, lead byte first.
pub data IsShaped : List ℕ → Type 0 where
  nil : IsShaped []
  sequence :
      (c : ℕ) (tail rest text : List ℕ)
      → remaining c ≡ some (length tail)
      → continues tail ≡ true
      → IsShaped rest
      → text ≡ c ∷ tail ++ rest
      → IsShaped text

take-append-drop : (n : ℕ) (xs : List ℕ) → take n xs ++ drop n xs ≡ xs
take-append-drop zero xs = refl
take-append-drop (suc n) [] = refl
take-append-drop (suc n) (x ∷ xs) = rw (take-append-drop n xs)

length-take_le : (n : ℕ) (xs : List ℕ) → n ≤ length xs → length (take n xs) ≡ n
length-take_le zero xs h = refl
length-take_le (suc n) [] h = elim h [ ]
length-take_le (suc n) (x ∷ xs) h = ap suc (length-take_le n xs (omega arith))

length-drop_le : (n : ℕ) (xs : List ℕ) → length (drop n xs) ≤ length xs
length-drop_le zero xs = omega arith
length-drop_le (suc n) [] = omega arith
length-drop_le (suc n) (x ∷ xs) = omega (arith, length-drop_le n xs)

take-append_length : (xs ys : List ℕ) → take (length xs) (xs ++ ys) ≡ xs
take-append_length [] ys = refl
take-append_length (x ∷ xs) ys = ap (◌∷◌ x) (take-append_length xs ys)

drop-append_length : (xs ys : List ℕ) → drop (length xs) (xs ++ ys) ≡ ys
drop-append_length [] ys = refl
drop-append_length (x ∷ xs) ys = drop-append_length xs ys

valid_from-IsShaped : (f : ℕ) (s : List ℕ) → valid_from f s ≡ true → IsShaped s
unfolding valid_from
valid_from-IsShaped zero [] h = nil
valid_from-IsShaped zero (c ∷ rest) h = cc
valid_from-IsShaped (suc f) [] h = nil
valid_from-IsShaped (suc f) (c ∷ rest) h = elim (Option-cases (remaining c)) [
  | inl bad ↦ absurd (ground arith)
  | inr (n, lead) ↦
      sequence c (take n rest) (drop n rest) (c ∷ rest) (ground (arith, length-take_le n rest))
        (ground arith) (valid_from-IsShaped f (drop n rest) (ground arith))
        (rw (take-append-drop n rest))
]

valid_from_sequence :
    (f c : ℕ) (tail rest : List ℕ)
    → remaining c ≡ some (length tail)
    → continues tail ≡ true
    → ((f : ℕ) → length rest ≤ f → valid_from f rest ≡ true)
    → length (c ∷ tail ++ rest) ≤ f
    → valid_from f (c ∷ tail ++ rest) ≡ true
unfolding valid_from
valid_from_sequence zero c tail rest lead cont later h = absurd (omega arith)
valid_from_sequence (suc f) c tail rest lead cont later h = ground (
  arith,
  length-append tail rest,
  take-append_length tail rest,
  drop-append_length tail rest,
  later f (omega (arith, length-append tail rest)),
)

IsShaped-valid_from : (s : List ℕ) → IsShaped s → (f : ℕ) → length s ≤ f → valid_from f s ≡ true
unfolding valid_from
IsShaped-valid_from s nil zero h = refl
IsShaped-valid_from s nil (suc f) h = refl
IsShaped-valid_from s (sequence c tail rest _ lead cont shaped e) f h = rw e (
    valid_from_sequence f c tail rest lead cont (IsShaped-valid_from rest shaped)
      (omega (arith, ap length e)))

-- The check accepts exactly the texts that are rows of lead bytes, each with the continuation
-- bytes that it asks for.
pub is_valid_utf8_iff : (s : List ℕ) → (is_valid_utf8 s ≡ true) ↔ IsShaped s
unfolding is_valid_utf8
is_valid_utf8_iff s =
    (valid_from-IsShaped (length s) s, λ v. IsShaped-valid_from s v (length s) (omega arith))

-- ===== src/Crypto/Hex.antt =====
-- common/src/crypto.cpp: hexadecimal text, read back, and the stored hashes.
use Prim.Native.Char.{Char, code}
use Prim.Native.String
use network_final_project.Base.{
  ℕ, zero, suc, ◌+◌, ◌-◌, ◌*◌, ◌/◌, ◌%◌, ◌^◌, ◌<◌, ◌≡◌, refl, ap, ◌∙◌, ◌↔◌, String, Bool, true,
  false, ltb, ◌==◌, ==_iff, Bool-cases, inl, inr, arith, eq_iff, if◌then◌else◌,
}
use native.Mathlib.Nat.{pow-suc}
use network_final_project.Crypto.{hex_digit, hex_from, to_hex, hash_password, verify_password}

-- The value of a digit: `0` to `9`, then `a` to `f`.
digit_value : Char → ℕ
digit_value c = if ltb (code c) 58 then code c - 48 else code c - 87

unfoldable pub read_hex : ℕ → String → ℕ
unfolding digit_value
read_hex a String.[] = a
read_hex a (String.◌∷◌ c s) = read_hex (a * 16 + digit_value c) s

-- The digits under `count` have their own values.
digits_agree : ℕ → Bool
digits_agree zero = true
digits_agree (suc digit) =
    let lower = digits_agree digit in
    if digit_value (hex_digit digit) == digit then lower else false

digits_agree-digit_value :
    (digit count : ℕ)
    → digit < count
    → digits_agree count ≡ true
    → digit_value (hex_digit digit) ≡ digit
unfolding digits_agree
digits_agree-digit_value digit zero h agree = absurd (omega arith)
digits_agree-digit_value digit (suc top) h agree = elim (Bool-cases (digit == top)) [
  | inl e ↦ ground (arith, ap (λ k. digit_value (hex_digit k)) ((==_iff digit top).0 e))
  | inr e ↦ ground (arith, e, digits_agree-digit_value digit top)
]

sixteen_agree : digits_agree 16 ≡ true
unfolding digits_agree digit_value hex_digit
sixteen_agree = refl

digit_value-hex_digit : (n : ℕ) → n < 16 → digit_value (hex_digit n) ≡ n
digit_value-hex_digit n h = digits_agree-digit_value n 16 h sixteen_agree

read_digit :
    (v a : ℕ) (s : String)
    → v < 16
    → read_hex a (String.◌∷◌ (hex_digit v) s) ≡ read_hex (a * 16 + v) s
unfolding read_hex
read_digit v a s h = rw (digit_value-hex_digit v h)

read_hex-hex_from :
    (f v : ℕ) (s : String) → v < 16 ^ suc f → read_hex 0 (hex_from (suc f) v s) ≡ read_hex v s
unfolding hex_from
read_hex-hex_from zero v s h = elim (Bool-cases (ltb v 16)) [
  | inl e ↦ rw (e, read_digit v 0 s (ground arith)) (ap (λ a. read_hex a s) (omega arith))
  | inr e ↦ absurd (ground arith)
]
read_hex-hex_from (suc f) v s h = elim (Bool-cases (ltb v 16)) [
  | inl e ↦ rw (e, read_digit v 0 s (ground arith)) (ap (λ a. read_hex a s) (omega arith))
  | inr e ↦ rw e (
      read_hex-hex_from f (v / 16) (String.◌∷◌ (hex_digit (v % 16)) s)
        (omega (arith, pow-suc 16 (suc f)))
      ∙ read_digit (v % 16) (v / 16) s (omega arith)
      ∙ ap (λ a. read_hex a s) (omega arith))
]

-- The printed text of a 64-bit value reads back as the value.
pub read_hex-to_hex : (v : ℕ) → v < 2 ^ 64 → read_hex 0 (to_hex v) ≡ v
unfolding to_hex read_hex
read_hex-to_hex v h = read_hex-hex_from 15 v "" h

pub to_hex_inj : (v w : ℕ) → v < 2 ^ 64 → w < 2 ^ 64 → to_hex v ≡ to_hex w → v ≡ w
to_hex_inj v w hv hw e = cc (read_hex-to_hex v hv, read_hex-to_hex w hw, ap (read_hex 0) e)

-- With hashes below 2 ^ 64, a password is accepted exactly when its salted hash is that of the
-- password whose hash was stored.
pub verify_password_iff :
    (hash : String → ℕ) (salt p q : String)
    → ((t : String) → hash t < 2 ^ 64)
    → (verify_password hash p (hash_password hash q salt) salt ≡ true)
      ↔ (hash (String.◌++◌ salt p) ≡ hash (String.◌++◌ salt q))
unfolding verify_password hash_password
verify_password_iff hash salt p q bound =
    (λ e. to_hex_inj _ _ (bound _) (bound _) ((eq_iff _ _).0 e), λ e. (eq_iff _ _).1 (ap to_hex e))

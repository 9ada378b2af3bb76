-- ===== src/Auth/Tokens.antt =====
-- server/src/auth.cpp: the tokens that random_token makes.
use Prim.Native.Char.{code}
use Prim.Native.String
use text.Mathlib.TextLemmas.{cons-append, nil-append}
use network_final_project.Base.{
  ℕ, zero, suc, ◌/◌, ◌%◌, ◌≡◌, refl, String, Bool, true, false, Bool-cases, inl, inr, str_eq, arith,
  eq_iff, ap, c_str, ◌==◌, if◌then◌else◌, ◌∙◌,
}
use network_final_project.Crypto.{char_or, hex_digit, hex_from, to_hex}
use network_final_project.Base.Action.{ok}
use network_final_project.Db.{Db}
use network_final_project.Db.Env.{Env}
use network_final_project.Auth.{SessionInfo, random_token, login}

abbrev has_text : String → Bool
has_text String.[] = false
has_text (String.◌∷◌ c s) = true

has_text-hex_from : (f v : ℕ) (s : String) → has_text (hex_from (suc f) v s) ≡ true
unfolding hex_from
has_text-hex_from zero v s = ground arith
has_text-hex_from (suc f) v s =
    ground (arith, has_text-hex_from f (v / 16) (String.◌∷◌ (hex_digit (v % 16)) s))

has_text-++ : (s t : String) → has_text s ≡ true → has_text (String.◌++◌ s t) ≡ true
has_text-++ String.[] t h = absurd (ground arith)
has_text-++ (String.◌∷◌ c s) t h = ap has_text (cons-append c s t)

has_text-str_eq : (s : String) → has_text s ≡ true → str_eq s "" ≡ false
has_text-str_eq s h = elim (Bool-cases (str_eq s "")) [
  | inr e ↦ e
  | inl e ↦ absurd (cc (h, ap has_text ((eq_iff s "").0 e)))
]

-- A token is not the empty text.
pub random_token_named : (env : Env) → str_eq (random_token env) "" ≡ false
unfolding random_token to_hex
random_token_named env =
    has_text-str_eq _ (
      has_text-++ (to_hex (env.draw 0)) (to_hex (env.draw 1))
        (has_text-hex_from 15 (env.draw 0) ""))

-- No character of a text is NUL.
abbrev is_full : String → Bool
is_full String.[] = true
is_full (String.◌∷◌ c s) = let rest = is_full s in if code c == 0 then false else rest

code-char_or : (s : String) (n : ℕ) → is_full s ≡ true → (code (char_or s n) == 0) ≡ false
code-char_or String.[] n h = refl
code-char_or (String.◌∷◌ c s) zero h = ground arith
code-char_or (String.◌∷◌ c s) (suc n) h = ground (arith, code-char_or s n)

code-hex_digit : (n : ℕ) → (code (hex_digit n) == 0) ≡ false
unfolding hex_digit
code-hex_digit n = code-char_or "0123456789abcdef" n refl

is_full-hex_from : (f v : ℕ) (s : String) → is_full s ≡ true → is_full (hex_from f v s) ≡ true
unfolding hex_from
is_full-hex_from zero v s h = h
is_full-hex_from (suc f) v s h = ground (
  arith,
  code-hex_digit v,
  code-hex_digit (v % 16),
  is_full-hex_from f (v / 16) (String.◌∷◌ (hex_digit (v % 16)) s),
)

is_full-++ : (s t : String) → is_full s ≡ true → is_full t ≡ true → is_full (String.◌++◌ s t) ≡ true
is_full-++ String.[] t h k = ap is_full (nil-append t) ∙ k
is_full-++ (String.◌∷◌ c s) t h k = ap is_full (cons-append c s t) ∙ ground (arith, is_full-++ s t)

c_str_full : (s : String) → is_full s ≡ true → c_str s ≡ s
c_str_full String.[] h = refl
c_str_full (String.◌∷◌ c s) h = ground (arith, c_str_full s)

-- A token has no NUL.
pub c_str-random_token : (env : Env) → c_str (random_token env) ≡ random_token env
unfolding random_token to_hex
c_str-random_token env = c_str_full _ (
    is_full-++ (to_hex (env.draw 0)) (to_hex (env.draw 1))
      (is_full-hex_from 16 (env.draw 0) "" refl) (is_full-hex_from 16 (env.draw 1) "" refl))

pub login_token :
    {D : Type 0} (env : Env) (username password : String) (ttl : ℕ) (s : SessionInfo)
    (db db' : Db D)
    → login env username password ttl db ≡ (ok s, db')
    → s.token ≡ random_token env
unfolding login
login_token env username password ttl s db db' h = ground arith

-- ===== src/Crypto.antt =====
-- common/src/crypto.cpp: the password hash. `std::hash` is a parameter with values below 2 ^ 64.
pub mod Hex
use Prim.Native.Char.{Char}
use Prim.Native.String
use network_final_project.Base.{ℕ, zero, suc, ◌/◌, ◌%◌, String, Bool, ltb, str_eq, if◌then◌else◌}

abbrev pub char_or : String → ℕ → Char
char_or String.[] n = "0"
char_or (String.◌∷◌ c s) zero = c
char_or (String.◌∷◌ c s) (suc n) = char_or s n

-- One hexadecimal digit of `std::hex`.
unfoldable pub hex_digit : ℕ → Char
hex_digit n = char_or "0123456789abcdef" n

-- `oss << std::hex << value`: the digits of `value` in front of `s`. A 64-bit value has 16 digits.
unfoldable pub hex_from : ℕ → ℕ → String → String
hex_from zero v s = s
hex_from (suc f) v s =
    let rest = hex_from f (v / 16) (String.◌∷◌ (hex_digit (v % 16)) s) in
    if ltb v 16 then String.◌∷◌ (hex_digit v) s else rest

unfoldable pub to_hex : ℕ → String
to_hex value = hex_from 16 value ""

module _ (hash : String → ℕ) where
  unfoldable pub hash_password : String → String → String
  hash_password password salt = to_hex (hash (String.◌++◌ salt password))

  unfoldable pub verify_password : String → String → String → Bool
  verify_password password stored_hash salt = str_eq (hash_password password salt) stored_hash

-- The default argument of both.
abbrev pub quiz_salt : String
quiz_salt = "quiz_salt"

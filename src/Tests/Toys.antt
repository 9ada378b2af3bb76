-- ===== src/Tests/Toys.antt =====
-- A JSON value and a block cipher small enough to compute with, as instances of what
-- common/src/codec.cpp and common/src/aes_crypto.cpp call.
use network_final_project.Base.{
  ℕ, zero, suc, ◌-◌, ◌%◌, ◌≤◌, ◌≡◌, refl, ap, ◌∙◌, String, Bool, true, false, Option, some, List,
  [], ◌∷◌, ◌++◌, arith, length, take, length-append, str_eq, if◌then◌else◌,
}
use network_final_project.Codec.Json.{JsonApi, JsonLaws}
use network_final_project.Codec.Aes.{Evp}
use network_final_project.Codec.Aes.Buffers.{EvpLaws}

-- An object is the row of the assignments that made it.
pub data Json : Type 0 where
  nothing empty : Json
  text : String → Json
  number : ℕ → Json
  minus : ℕ → Json
  assigned : Json → String → Json → Json

abbrev pub has_fields : Json → Bool
has_fields empty = true
has_fields (assigned j k v) = has_fields j
has_fields _ = false

abbrev is_text : Json → Bool
is_text (text s) = true
is_text _ = false

abbrev pub is_number : Json → Bool
is_number (number n) = true
is_number (minus n) = true
is_number _ = false

abbrev is_unsigned : Json → Bool
is_unsigned (number n) = true
is_unsigned _ = false

abbrev is_nothing : Json → Bool
is_nothing nothing = true
is_nothing _ = false

abbrev pub has : Json → String → Bool
has (assigned j k v) key = if str_eq k key then true else has j key
has _ key = false

abbrev pub field : Json → String → Json
field (assigned j k v) key = if str_eq k key then v else field j key
field _ key = nothing

abbrev assign : Json → String → Json → Json
assign nothing k v = assigned empty k v
assign j k v = assigned j k v

abbrev text_of : Json → String
text_of (text s) = s
text_of _ = ""

abbrev number_of : Json → ℕ
number_of (number n) = n
number_of _ = 0

-- The values with a way to write and to read them.
abbrev pub json_with : (Json → List ℕ) → (List ℕ → Option Json) → JsonApi Json
json_with write read = record {
  is_object = has_fields;
  is_string = is_text;
  is_number_unsigned = is_unsigned;
  is_null = is_nothing;
  contains = has;
  get = field;
  put = assign;
  null = nothing;
  object = empty;
  of_string = text;
  of_unsigned = number;
  to_string = text_of;
  to_unsigned = number_of;
  dump = write;
  parse = read;
}

-- Every value is written as the two bytes of `{}`, which are read as `known`.
abbrev pub json_of : Json → JsonApi Json
json_of known = json_with (λ j. 123 ∷ 125 ∷ []) (λ bytes. some known)

assign-object :
    (j : Json) (k : String) (v : Json) → has_fields j ≡ true → assign j k v ≡ assigned j k v
assign-object nothing k v h = absurd (ground arith)
assign-object empty k v h = refl
assign-object (text s) k v h = refl
assign-object (number n) k v h = refl
assign-object (minus n) k v h = refl
assign-object (assigned j k' v') k v h = refl

has_fields-is_nothing : (j : Json) → has_fields j ≡ true → is_nothing j ≡ false
has_fields-is_nothing nothing h = absurd (ground arith)
has_fields-is_nothing empty h = refl
has_fields-is_nothing (text s) h = refl
has_fields-is_nothing (number n) h = refl
has_fields-is_nothing (minus n) h = refl
has_fields-is_nothing (assigned j k v) h = refl

pub json_with-JsonLaws :
    (write : Json → List ℕ) (read : List ℕ → Option Json) → JsonLaws (json_with write read)
json_with-JsonLaws write read = record {
  put_null = λ k v. refl;
  object_lem = refl;
  object_not_null = has_fields-is_nothing;
  object_empty = λ k. refl;
  is_object-put = λ j k v h. ap has_fields (assign-object j k v h) ∙ h;
  contains-put = λ j k k' v h. ap (λ o. has o k') (assign-object j k v h);
  get-put = λ j k k' v h. ap (λ o. field o k') (assign-object j k v h);
  string_lem = λ s. refl;
  to_string-of_string = λ s. refl;
  unsigned_lem = λ n. refl;
  to_unsigned-of_unsigned = λ n h. refl;
}

pub json_of-JsonLaws : (known : Json) → JsonLaws (json_of known)
json_of-JsonLaws known = json_with-JsonLaws (λ j. 123 ∷ 125 ∷ []) (λ bytes. some known)

-- A cipher that only pads, with the number of the bytes that it adds.
abbrev repeat : ℕ → ℕ → List ℕ
repeat zero x = []
repeat (suc n) x = x ∷ repeat n x

abbrev padding : List ℕ → List ℕ
padding p = repeat (16 - length p % 16) (16 - length p % 16)

abbrev last_byte : ℕ → List ℕ → ℕ
last_byte b [] = b
last_byte b (x ∷ xs) = last_byte x xs

abbrev strip : List ℕ → List ℕ
strip c = take (length c - last_byte 0 c) c

abbrev pub pads : Evp
pads = record {
  has_context = true;
  block_size = 16;
  encryption = record { init = true; update = λ p. some p; final = λ p. some (padding p) };
  decryption = record { init = true; update = λ c. some []; final = λ c. some (strip c) };
}

length-repeat : (n x : ℕ) → length (repeat n x) ≡ n
length-repeat zero x = refl
length-repeat (suc n) x = ap suc (length-repeat n x)

length-take_le : (n : ℕ) (xs : List ℕ) → length (take n xs) ≤ length xs
length-take_le zero xs = omega arith
length-take_le (suc n) [] = omega arith
length-take_le (suc n) (x ∷ xs) = omega (arith, length-take_le n xs)

last_byte-repeat : (b n x : ℕ) → last_byte b (repeat (suc n) x) ≡ x
last_byte-repeat b zero x = refl
last_byte-repeat b (suc n) x = last_byte-repeat x n x

last_byte-append : (b x : ℕ) (xs ys : List ℕ) → last_byte b (xs ++ x ∷ ys) ≡ last_byte 0 (x ∷ ys)
last_byte-append b x [] ys = refl
last_byte-append b x (y ∷ xs) ys = last_byte-append y x xs ys

take-append_exact : (n : ℕ) (xs ys : List ℕ) → n ≡ length xs → take n (xs ++ ys) ≡ xs
take-append_exact zero [] ys e = refl
take-append_exact zero (x ∷ xs) ys e = absurd (omega arith)
take-append_exact (suc n) [] ys e = absurd (omega arith)
take-append_exact (suc n) (x ∷ xs) ys e = ap (◌∷◌ x) (take-append_exact n xs ys (omega arith))

strip-repeat : (p : List ℕ) (n : ℕ) → strip (p ++ repeat (suc n) (suc n)) ≡ p
strip-repeat p n =
    let pad = repeat (suc n) (suc n) in
    let last : last_byte 0 (p ++ pad) ≡ suc n =
      last_byte-append 0 (suc n) p (repeat n (suc n)) ∙ last_byte-repeat 0 n (suc n) in
    take-append_exact (length (p ++ pad) - last_byte 0 (p ++ pad)) p pad
      (omega (arith, last, length-append p pad, length-repeat (suc n) (suc n)))

strip-padding : (p : List ℕ) → strip (p ++ padding p) ≡ p
strip-padding p =
    let n = 15 - length p % 16 in
    let size : 16 - length p % 16 ≡ suc n = omega arith in
    ap (λ k. strip (p ++ repeat k k)) size ∙ strip-repeat p n

length-padding : (p : List ℕ) → length (padding p) ≡ 16 - length p % 16
length-padding p = length-repeat (16 - length p % 16) (16 - length p % 16)

pub pads-EvpLaws : EvpLaws pads
pads-EvpLaws = record {
  context_lem = refl;
  block_lem = refl;
  encryption_init = refl;
  decryption_init = refl;
  encryption_fits = λ p a b u f. ground (arith, length-padding p);
  decryption_fits = λ c a b u f. ground (arith, length-take_le (length c - last_byte 0 c) c);
  encrypts = λ p. (p, padding p, refl, refl, omega (arith, length-padding p));
  decrypts = λ p a b u f. ([], strip (a ++ b), refl, refl, ground (arith, strip-padding p));
}

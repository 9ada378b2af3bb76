-- ===== src/Codec/Json.antt =====
-- third_party/nlohmann_json is another project's library: what common/src/codec.cpp calls of it is
-- a parameter. `J` is the type `nlohmann::json`.
pub mod Build
use network_final_project.Base.{
  ℕ, ◌<◌, ◌^◌, ◌≡◌, String, Bool, true, false, Option, some, List, str_eq, if◌then◌else◌,
}

pub record JsonApi (J : Type 0) : Type 0 where
  pub is_object : J → Bool
  pub is_string : J → Bool
  pub is_number_unsigned : J → Bool
  pub is_null : J → Bool
  pub contains : J → String → Bool
  -- `j[key]`, and the assignment `j[key] = v`.
  pub get : J → String → J
  pub put : J → String → J → J
  pub null : J
  pub object : J
  pub of_string : String → J
  pub of_unsigned : ℕ → J
  pub to_string : J → String
  pub to_unsigned : J → ℕ
  -- `parse` throws on a text that is no JSON.
  pub dump : J → List ℕ
  pub parse : List ℕ → Option J

-- What the library documents. Assigning to a key of null makes it an object first.
pub record JsonLaws {J : Type 0} (js : JsonApi J) : Type 0 where
  pub put_null : (k : String) (v : J) → js.put js.null k v ≡ js.put js.object k v
  pub object_lem : js.is_object js.object ≡ true
  pub object_not_null : (j : J) → js.is_object j ≡ true → js.is_null j ≡ false
  pub object_empty : (k : String) → js.contains js.object k ≡ false
  pub is_object-put :
      (j : J) (k : String) (v : J) → js.is_object j ≡ true → js.is_object (js.put j k v) ≡ true
  pub contains-put :
      (j : J) (k k' : String) (v : J)
      → js.is_object j ≡ true
      → js.contains (js.put j k v) k' ≡ (if str_eq k k' then true else js.contains j k')
  pub get-put :
      (j : J) (k k' : String) (v : J)
      → js.is_object j ≡ true
      → js.get (js.put j k v) k' ≡ (if str_eq k k' then v else js.get j k')
  pub string_lem : (s : String) → js.is_string (js.of_string s) ≡ true
  pub to_string-of_string : (s : String) → js.to_string (js.of_string s) ≡ s
  pub unsigned_lem : (n : ℕ) → js.is_number_unsigned (js.of_unsigned n) ≡ true
  pub to_unsigned-of_unsigned : (n : ℕ) → n < 2 ^ 64 → js.to_unsigned (js.of_unsigned n) ≡ n

-- ===== src/Handlers/Fields.antt =====
-- third_party/nlohmann_json: what its documentation says of the calls by which a side reads an object
-- that the other side has built, and what an object of fields holds under a key.
use network_final_project.Base.{
  ◌<◌, ◌^◌, ◌≡◌, refl, ap, ◌∙◌, String, true, Option, none, some, List, [], ◌∷◌, map, arith,
}
use network_final_project.Base.Int.{ℤ, pos, negsuc, scale}
use network_final_project.Base.Action.{ok}
use network_final_project.Codec.Json.{JsonApi, JsonLaws}
use network_final_project.Codec.Json.Build.{build, built, lookup, lookup-build}
use network_final_project.Handlers.{JsonData, put_all, fields}

-- What a 32-bit int holds.
abbrev pub IsInt : ℤ → Type 0
IsInt (pos n) = n < 2 ^ 31
IsInt (negsuc n) = n < 2 ^ 31

-- What fits after it is multiplied fits before.
pub scale-IsInt : (z : ℤ) → IsInt (scale 60 z) → IsInt z
scale-IsInt (pos n) h = omega (arith, h)
scale-IsInt (negsuc n) h = omega (arith, h)

-- `value` gives what stands under the key, and its default where nothing does.
pub record DataLaws {J D : Type 0} (js : JsonApi J) (jd : JsonData J D) : Type 0 where
  pub value_int_lem :
      (j : J) (key : String) (default z : ℤ)
      → IsInt z
      → lookup js j key ≡ some (jd.of_int z)
      → jd.value_int j key default ≡ ok z
  pub value_text_lem :
      (j : J) (key default s : String)
      → lookup js j key ≡ some (js.of_string s)
      → jd.value_text j key default ≡ ok s
  pub value_text_default :
      (j : J) (key default : String)
      → js.is_object j ≡ true
      → lookup js j key ≡ none
      → jd.value_text j key default ≡ ok default
  pub value_json_lem :
      (j : J) (key : String) (default v : J)
      → lookup js j key ≡ some v
      → jd.value_json j key default ≡ ok v
  pub get_text_lem : (s : String) → jd.get_text (js.of_string s) ≡ ok s
  pub is_array_lem : (vs : List J) → jd.is_array (jd.of_list vs) ≡ true
  pub elements_lem : (vs : List J) → jd.elements (jd.of_list vs) ≡ vs

module _ {J D : Type 0} (js : JsonApi J) (jd : JsonData J D) where
  pub lookup_held :
      (j : J) (key : String) (v : J)
      → lookup js j key ≡ some v
      → (js.contains j key ≡ true) × (js.get j key ≡ v)
  lookup_held j key v e = ground arith

  abbrev pub given : List (String × J) → List (String × Option J)
  given rows = map (λ r. (r.0, some r.1)) rows

  put_all-build :
      (j : J) (rows : List (String × J)) → put_all js jd j rows ≡ build js j (given rows)
  put_all-build j [] = refl
  put_all-build j ((key, v) ∷ rows) = put_all-build (js.put j key v) rows

  -- An object of fields holds under a key what its last row with that key says.
  pub lookup-fields :
      JsonLaws js
      → (rows : List (String × J)) (key : String)
      → lookup js (fields js jd rows) key ≡ built js none key (given rows)
  unfolding fields
  lookup-fields laws rows key =
      ap (λ o. lookup js o key) (put_all-build js.object rows)
      ∙ lookup-build js laws js.object (given rows) key laws.object_lem
      ∙ ap (λ b. built js b key (given rows)) (ground (arith, laws.object_empty key))

  put_all-is_object :
      JsonLaws js
      → (j : J) (rows : List (String × J)) → js.is_object j ≡ true
      → js.is_object (put_all js jd j rows) ≡ true
  put_all-is_object laws j [] h = h
  put_all-is_object laws j ((key, v) ∷ rows) h =
      put_all-is_object laws (js.put j key v) rows (laws.is_object-put j key v h)

  pub fields-is_object :
      JsonLaws js → (rows : List (String × J)) → js.is_object (fields js jd rows) ≡ true
  unfolding fields
  fields-is_object laws rows = put_all-is_object laws js.object rows laws.object_lem

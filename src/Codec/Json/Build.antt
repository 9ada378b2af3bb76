-- ===== src/Codec/Json/Build.antt =====
-- An object that is built by a row of assignments, and what it holds under a key.
use network_final_project.Base.{
  ◌≡◌, refl, ap, ◌∙◌, String, true, Option, none, some, List, [], ◌∷◌, arith, str_eq, if◌then◌else◌,
}
use network_final_project.Codec.Json.{JsonApi, JsonLaws}

module _ {J : Type 0} (js : JsonApi J) where
  abbrev pub assign : J → String → Option J → J
  assign j k none = j
  assign j k (some v) = js.put j k v

  -- Assignments that are made or left out, in order.
  abbrev pub build : J → List (String × Option J) → J
  build j [] = j
  build j ((k, o) ∷ rest) = build (assign j k o) rest

  abbrev pub override : Option J → Option J → Option J
  override before none = before
  override before (some v) = some v

  abbrev pub built : Option J → String → List (String × Option J) → Option J
  built before key [] = before
  built before key ((k, o) ∷ rest) =
      built (if str_eq k key then override before o else before) key rest

  abbrev pub lookup : J → String → Option J
  lookup j k = if js.contains j k then some (js.get j k) else none

  is_object-assign :
      JsonLaws js
      → (j : J) (k : String) (o : Option J) → js.is_object j ≡ true
      → js.is_object (assign j k o) ≡ true
  is_object-assign laws j k none h = h
  is_object-assign laws j k (some v) h = laws.is_object-put j k v h

  lookup-assign :
      JsonLaws js
      → (j : J) (k : String) (o : Option J) (key : String) → js.is_object j ≡ true
      → lookup (assign j k o) key
        ≡ (if str_eq k key then override (lookup j key) o else lookup j key)
  lookup-assign laws j k none key h = ground arith
  lookup-assign laws j k (some v) key h =
      ground (arith, laws.contains-put j k key v h, laws.get-put j k key v h)

  pub lookup-build :
      JsonLaws js
      → (j : J) (fields : List (String × Option J)) (key : String) → js.is_object j ≡ true
      → lookup (build j fields) key ≡ built (lookup j key) key fields
  lookup-build laws j [] key h = refl
  lookup-build laws j ((k, o) ∷ rest) key h =
      lookup-build laws (assign j k o) rest key (is_object-assign laws j k o h)
      ∙ ap (λ b. built b key rest) (lookup-assign laws j k o key h)

  pub is_object-build :
      JsonLaws js
      → (j : J) (fields : List (String × Option J)) → js.is_object j ≡ true
      → js.is_object (build j fields) ≡ true
  is_object-build laws j [] h = h
  is_object-build laws j ((k, o) ∷ rest) h =
      is_object-build laws (assign j k o) rest (is_object-assign laws j k o h)

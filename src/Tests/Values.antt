-- ===== src/Tests/Values.antt =====
-- What server/src/main.cpp and client/src/ui.cpp call of a JSON value, for the small JSON value of the
-- tests.
use network_final_project.Base.{
  ℕ, ◌≡◌, refl, ap, String, true, Option, List, [], ◌∷◌, arith, if◌then◌else◌,
}
use network_final_project.Base.Int.{ℤ, pos, negsuc}
use network_final_project.Base.Action.{Result, ok, err}
use network_final_project.Handlers.{JsonData}
use network_final_project.Handlers.Fields.{DataLaws}
use network_final_project.Client.Window.{JsonView}
use network_final_project.Tests.Toys.{
  Json, empty, text, number, minus, assigned, has_fields, is_number, has, field, json_with,
}

abbrev int_of : Json → Result ℤ
int_of (number n) = ok (pos n)
int_of (minus n) = ok (negsuc n)
int_of _ = err "type must be number"

abbrev text_in : Json → Result String
text_in (text s) = ok s
text_in _ = err "type must be string"

abbrev of_number : ℤ → Json
of_number (pos n) = number n
of_number (negsuc n) = minus n

-- An array is a row of assignments as well.
abbrev items : Json → List Json
items (assigned j k v) = v ∷ items j
items _ = []

abbrev of_items : List Json → Json
of_items [] = empty
of_items (v ∷ vs) = assigned (of_items vs) "" v

abbrev pub toy_data : JsonData Json ℕ
toy_data = record {
  value_int = λ j k d. if has j k then int_of (field j k) else ok d;
  value_text = λ j k d. if has j k then text_in (field j k) else ok d;
  value_json = λ j k d. if has j k then ok (field j k) else ok d;
  is_array = has_fields;
  is_number = is_number;
  is_integer = is_number;
  elements = items;
  get_int = int_of;
  get_text = text_in;
  of_int = of_number;
  of_double = number;
  of_list = of_items;
  of_column = text;
}

-- A column is the text of an object with one option, whose key is A.
abbrev pub toy_view : JsonView Json
toy_view = record { items = λ j. ("A", j) ∷ []; dump_indented = λ j. ok "{}" }

items-of_items : (vs : List Json) → items (of_items vs) ≡ vs
items-of_items [] = refl
items-of_items (v ∷ vs) = ap (◌∷◌ v) (items-of_items vs)

has_fields-of_items : (vs : List Json) → has_fields (of_items vs) ≡ true
has_fields-of_items [] = refl
has_fields-of_items (v ∷ vs) = has_fields-of_items vs

int_of-of_number : (z : ℤ) → int_of (of_number z) ≡ ok z
int_of-of_number (pos n) = refl
int_of-of_number (negsuc n) = refl

pub toy_data-DataLaws :
    (write : Json → List ℕ) (read : List ℕ → Option Json) → DataLaws (json_with write read) toy_data
toy_data-DataLaws write read = record {
  value_int_lem = λ j key d z fits held. ground (arith, int_of-of_number z);
  value_text_lem = λ j key d s held. ground arith;
  value_text_default = λ j key d object none_held. ground arith;
  value_json_lem = λ j key d v held. ground arith;
  get_text_lem = λ s. refl;
  is_array_lem = has_fields-of_items;
  elements_lem = items-of_items;
}

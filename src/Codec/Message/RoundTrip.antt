-- ===== src/Codec/Message/RoundTrip.antt =====
-- common/src/codec.cpp: message_to_json, then message_from_json.
use network_final_project.Base.{
  ◌<◌, ◌^◌, ◌≡◌, refl, ap, ◌∙◌, ◌≢◌, ◌&&◌, String, true, false, ◌||◌, Option, none, some, List, [],
  ◌∷◌, arith, str_eq, eq_iff, if◌then◌else◌,
}
use network_final_project.Base.Action.{ok}
use network_final_project.Codec.Json.{JsonApi, JsonLaws}
use network_final_project.Codec.Json.Build.{
  build, built, override, lookup, lookup-build, is_object-build,
}
use network_final_project.Codec.Message.{
  MessageType, request, response, notification, Status, unset, success, error, Message,
  type_to_string, status_to_string, message_type_from_string, status_from_string, is_unset,
  is_response, optional_string, optional_data, optional_status, message_from_json, put_text,
  message_to_json,
}

type_round_trip : (t : MessageType) → message_type_from_string (type_to_string t) ≡ some t
unfolding message_type_from_string type_to_string
type_round_trip request = refl
type_round_trip response = refl
type_round_trip notification = refl

status_round_trip : (s : Status) → status_from_string (status_to_string s) ≡ some s
unfolding status_from_string status_to_string
status_round_trip unset = refl
status_round_trip success = refl
status_round_trip error = refl

abbrev text_field : {J : Type 0} → JsonApi J → String → Option J
text_field js s = if str_eq s "" then none else some (js.of_string s)

module _ {J : Type 0} (js : JsonApi J) (laws : JsonLaws js) (m : Message J) where
  abbrev sent_data : J
  sent_data = if js.is_null m.payload then js.object else m.payload

  -- The assignments of message_to_json.
  abbrev fields : List (String × Option J)
  fields =
      ("message_type", some (js.of_string (type_to_string m.type)))
      ∷ ("action", some (js.of_string m.action))
      ∷ ("timestamp", some (js.of_unsigned m.timestamp))
      ∷ ("session_id", text_field js m.session_id)
      ∷ ("data", some sent_data)
      ∷ (
        "status",
        if is_unset m.status then none else some (js.of_string (status_to_string m.status)),
      )
      ∷ ("error_code", text_field js m.error_code)
      ∷ ("error_message", text_field js m.error_message)
      ∷ []

  message_to_json-build : message_to_json js m ≡ build js js.object fields
  unfolding message_to_json put_text
  message_to_json-build =
      ground (arith, laws.put_null "message_type" (js.of_string (type_to_string m.type)))

  empty : (k : String) → lookup js js.object k ≡ none
  empty k = rw (laws.object_empty k)

  field : (k : String) → lookup js (message_to_json js m) k ≡ built js none k fields
  field k = rw message_to_json-build (
      lookup-build js laws js.object fields k laws.object_lem
      ∙ ap (λ b. built js b k fields) (empty k))

  json_lem : js.is_object (message_to_json js m) ≡ true
  json_lem = rw message_to_json-build (is_object-build js laws js.object fields laws.object_lem)

module _ {J : Type 0} (js : JsonApi J) (laws : JsonLaws js) where
  -- A text that is left out where it is empty is read back.
  optional_string_lem :
      (j : J) (key s e : String)
      → lookup js j key ≡ override js none (text_field js s)
      → optional_string js j key e ≡ ok s
  unfolding optional_string
  optional_string_lem j key s e h =
      ground (arith, eq_iff s "", laws.string_lem s, laws.to_string-of_string s)

  optional_data_lem :
      (j v : J) → lookup js j "data" ≡ some v → js.is_object v ≡ true → optional_data js j ≡ ok v
  unfolding optional_data
  optional_data_lem j v h o = ground arith

  optional_status_lem :
      (j : J) (s : Status)
      → lookup js j "status"
        ≡ override js none (if is_unset s then none else some (js.of_string (status_to_string s)))
      → optional_status js j ≡ ok s
  unfolding optional_status
  optional_status_lem j s h =
      let text = status_to_string s in
      ground (arith, laws.string_lem text, laws.to_string-of_string text, status_round_trip s)

  -- A message with an action and an object as its data, and with a status if it is a response, is
  -- read back as it was written, but that null data comes back as an empty object.
  pub message_from_json-message_to_json :
      (m : Message J)
      → m.action ≢ ""
      → (js.is_null m.payload || js.is_object m.payload) ≡ true
      → (is_response m.type && is_unset m.status) ≡ false
      → m.timestamp < 2 ^ 64
      → message_from_json js (message_to_json js m)
        ≡ ok (record m { payload = if js.is_null m.payload then js.object else m.payload })
  unfolding message_from_json
  message_from_json-message_to_json m named object_data answered small =
      let j = message_to_json js m in
      let kind = type_to_string m.type in
      ground (
        arith,
        json_lem js laws m,
        field js laws m "message_type",
        field js laws m "action",
        field js laws m "timestamp",
        laws.string_lem kind,
        laws.to_string-of_string kind,
        type_round_trip m.type,
        laws.string_lem m.action,
        laws.to_string-of_string m.action,
        eq_iff m.action "",
        laws.unsigned_lem m.timestamp,
        laws.to_unsigned-of_unsigned m.timestamp small,
        laws.object_lem,
        optional_string_lem j "session_id" m.session_id "session_id must be string"
            (field js laws m "session_id"),
        optional_data_lem j (if js.is_null m.payload then js.object else m.payload)
            (field js laws m "data"),
        optional_status_lem j m.status (field js laws m "status"),
        optional_string_lem j "error_code" m.error_code "error_code must be string"
            (field js laws m "error_code"),
        optional_string_lem j "error_message" m.error_message "error_message must be string"
            (field js laws m "error_message"),
      )

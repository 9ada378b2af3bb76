-- ===== src/Codec/Message.antt =====
-- common/include/common/message.hpp and common/src/codec.cpp: messages and their JSON form.
pub mod RoundTrip
use network_final_project.Base.{
  ℕ, String, Bool, true, false, not, ◌||◌, ◌&&◌, Option, none, some, str_eq, if◌then◌else◌,
}
use network_final_project.Base.Action.{Result, ok, err}
use network_final_project.Codec.Json.{JsonApi}

pub data MessageType : Type 0 where
  request response notification : MessageType

-- `Status::None` is `unset`.
pub data Status : Type 0 where
  unset success error : Status

pub record Message (J : Type 0) : Type 0 where
  pub type : MessageType
  pub action : String
  pub timestamp : ℕ
  pub session_id : String
  pub payload : J
  pub status : Status
  pub error_code : String
  pub error_message : String

unfoldable pub type_to_string : MessageType → String
type_to_string request = "REQUEST"
type_to_string response = "RESPONSE"
type_to_string notification = "NOTIFICATION"

unfoldable pub status_to_string : Status → String
status_to_string unset = ""
status_to_string success = "SUCCESS"
status_to_string error = "ERROR"

unfoldable pub message_type_from_string : String → Option MessageType
message_type_from_string value =
    if str_eq value "REQUEST"
    then some request
    else if str_eq value "RESPONSE"
    then some response
    else if str_eq value "NOTIFICATION"
    then some notification
    else none

unfoldable pub status_from_string : String → Option Status
status_from_string value =
    if str_eq value ""
    then some unset
    else if str_eq value "SUCCESS"
    then some success
    else if str_eq value "ERROR"
    then some error
    else none

abbrev pub is_unset : Status → Bool
is_unset unset = true
is_unset _ = false

abbrev pub is_response : MessageType → Bool
is_response response = true
is_response _ = false

infixl 5 ◌>>=◌ ◌>>◌
abbrev ◌>>=◌ : {A B : Type 0} → Result A → (A → Result B) → Result B
ok a >>= f = f a
err e >>= f = err e

abbrev ◌>>◌ : {A B : Type 0} → Result A → Result B → Result B
m >> k = m >>= λ _. k

abbrev refuse_if : Bool → String → Result (Unit {0})
refuse_if true e = err e
refuse_if false e = ok tt

abbrev or_fail : {A : Type 0} → Option A → String → Result A
or_fail none e = err e
or_fail (some a) e = ok a

module _ {J : Type 0} (js : JsonApi J) where
  -- `if (j.contains(key)) { if (!j[key].is_string()) { error = e; … } field = j[key]; }`
  unfoldable pub optional_string : J → String → String → Result String
  optional_string j key e =
      if js.contains j key
      then (if js.is_string (js.get j key) then ok (js.to_string (js.get j key)) else err e)
      else ok ""

  unfoldable pub optional_data : J → Result J
  optional_data j =
      if js.contains j "data"
      then (if js.is_object (js.get j "data")
          then ok (js.get j "data")
          else err "data must be JSON object")
      else ok js.object

  unfoldable pub optional_status : J → Result Status
  optional_status j =
      if js.contains j "status"
      then (if js.is_string (js.get j "status")
          then or_fail (status_from_string (js.to_string (js.get j "status"))) "invalid status"
          else err "status must be string")
      else ok unset

  unfoldable pub message_from_json : J → Result (Message J)
  message_from_json j = do
    refuse_if (not (js.is_object j)) "Message must be a JSON object"
    refuse_if (not (js.contains j "message_type") || not (js.is_string (js.get j "message_type")))
        "message_type missing or not string"
    type ←
        or_fail (message_type_from_string (js.to_string (js.get j "message_type")))
          "invalid message_type"
    refuse_if
        (not (js.contains j "action")
          || (not (js.is_string (js.get j "action"))
              || str_eq (js.to_string (js.get j "action")) ""))
        "action missing or empty"
    refuse_if
        (not (js.contains j "timestamp") || not (js.is_number_unsigned (js.get j "timestamp")))
        "timestamp missing or not unsigned number"
    session_id ← optional_string j "session_id" "session_id must be string"
    payload ← optional_data j
    status ← optional_status j
    error_code ← optional_string j "error_code" "error_code must be string"
    error_message ← optional_string j "error_message" "error_message must be string"
    refuse_if (is_response type && is_unset status) "response requires status"
    ok (record {
      type = type;
      action = js.to_string (js.get j "action");
      timestamp = js.to_unsigned (js.get j "timestamp");
      session_id = session_id;
      payload = payload;
      status = status;
      error_code = error_code;
      error_message = error_message;
    })

  -- `if (!s.empty()) j[key] = s;`
  unfoldable pub put_text : String → String → J → J
  put_text key s j = if str_eq s "" then j else js.put j key (js.of_string s)

  unfoldable pub message_to_json : Message J → J
  message_to_json m =
      let j = js.put js.null "message_type" (js.of_string (type_to_string m.type)) in
      let j = js.put j "action" (js.of_string m.action) in
      let j = js.put j "timestamp" (js.of_unsigned m.timestamp) in
      let j = put_text "session_id" m.session_id j in
      let j = js.put j "data" (if js.is_null m.payload then js.object else m.payload) in
      let j =
        if is_unset m.status
        then j
        else js.put j "status" (js.of_string (status_to_string m.status)) in
      let j = put_text "error_code" m.error_code j in put_text "error_message" m.error_message j

-- ===== src/Client/Window/Buttons.antt =====
-- client/src/ui.cpp: what the buttons of the window do to its state and what they send. A button is given
-- with what stands in the fields of its panel that are no part of the ClientState.
use network_final_project.Base.{
  ℕ, String, Bool, Option, none, some, List, [], ◌∷◌, map, str_eq, if◌then◌else◌,
}
use network_final_project.Base.Int.{ℤ}
use network_final_project.Base.Action.{ok, err}
use network_final_project.Codec.Json.{JsonApi}
use network_final_project.Codec.Message.{Message, request, unset}
use network_final_project.Codec.Aes.{Evp}
use network_final_project.Codec.Socket.{Taking}
use network_final_project.Handlers.{JsonData, fields}
use network_final_project.Client.{send_message}
use network_final_project.Client.Life.{
  Dialing, ClientLink, Connecting, gives_up, connects, terminates, connect,
}
use network_final_project.Client.State.{
  ClientState, Question, RoomLine, ExamSession, PracticeSession,
}

pub data Button : Type 0 where
  login : String → String → Button
  create refresh : Button
  join start : RoomLine → Button
  get_paper : ℤ → Button
  submit_exam : Button
  start_practice : ℤ → ℤ → Button
  submit_practice : Button
  room_results : ℤ → Button
  my_history : Button

-- What a radio button does: it answers a question with the key of one of its options.
unfoldable pub choose : String → Question → Question
choose key q = record q { answer = key }

-- `q.answer.empty() ? "A" : q.answer`
unfoldable pub selected : Question → String
selected q = if str_eq q.answer "" then "A" else q.answer

-- Only Login changes the state before it sends.
unfoldable pub typed : Button → ClientState → ClientState
typed (login user pass) st = record st { username = user; password = pass }
typed _ st = st

unfoldable pub action_of : Button → String
action_of (login user pass) = "LOGIN"
action_of create = "CREATE_ROOM"
action_of refresh = "LIST_ROOMS"
action_of (join r) = "JOIN_ROOM"
action_of (start r) = "START_EXAM"
action_of (get_paper room_id) = "GET_EXAM_PAPER"
action_of submit_exam = "SUBMIT_EXAM"
action_of (start_practice qcount minutes) = "START_PRACTICE"
action_of submit_practice = "SUBMIT_PRACTICE"
action_of (room_results room_id) = "GET_ROOM_RESULTS"
action_of my_history = "GET_USER_HISTORY"

module _ {J D : Type 0} (js : JsonApi J) (jd : JsonData J D) where
  unfoldable pub login_data : ClientState → J
  login_data st =
      fields js jd
        (("username", js.of_string st.username) ∷ ("password", js.of_string st.password) ∷ [])

  unfoldable pub settings_of : ClientState → J
  settings_of st = fields js jd (
      ("total_questions", jd.of_int st.new_room_q_total)
      ∷ (
        "difficulty_distribution",
        fields js jd (
            ("easy", jd.of_int st.new_room_easy)
            ∷ ("medium", jd.of_int st.new_room_medium)
            ∷ ("hard", jd.of_int st.new_room_hard)
            ∷ []),
      )
      ∷ [])

  unfoldable pub create_data : ClientState → J
  create_data st = fields js jd (
      ("room_name", js.of_string st.new_room_name)
      ∷ ("description", js.of_string st.new_room_desc)
      ∷ ("duration_minutes", jd.of_int st.new_room_duration_min)
      ∷ ("question_settings", settings_of st)
      ∷ [])

  unfoldable pub refresh_data : J
  refresh_data =
      fields js jd (("filter", fields js jd (("status", js.of_string "WAITING") ∷ [])) ∷ [])

  -- `{{"room_id", room_id}}`
  unfoldable pub room_data : ℤ → J
  room_data room_id = fields js jd (("room_id", jd.of_int room_id) ∷ [])

  unfoldable pub answer_data : Question → J
  answer_data q = fields js jd (
      ("question_id", jd.of_int q.question_id)
      ∷ ("selected_option", js.of_string (selected q))
      ∷ [])

  unfoldable pub exam_data : ExamSession → J
  exam_data exam = fields js jd (
      ("exam_id", jd.of_int exam.exam_id)
      ∷ ("final_answers", jd.of_list (map answer_data exam.questions))
      ∷ [])

  unfoldable pub start_practice_data : ℤ → ℤ → J
  start_practice_data qcount minutes = fields js jd (
      ("question_count", jd.of_int qcount)
      ∷ ("duration_minutes", jd.of_int minutes)
      ∷ ("difficulty_filter", jd.of_list (js.of_string "EASY" ∷ js.of_string "MEDIUM" ∷ []))
      ∷ ("topic_filter", jd.of_list (js.of_string "Networking" ∷ []))
      ∷ [])

  unfoldable pub practice_data : PracticeSession → J
  practice_data practice = fields js jd (
      ("practice_id", jd.of_int practice.practice_id)
      ∷ ("final_answers", jd.of_list (map answer_data practice.questions))
      ∷ [])

  unfoldable pub data_of : Button → ClientState → J
  data_of (login user pass) st = login_data st
  data_of create st = create_data st
  data_of refresh st = refresh_data
  data_of (join r) st = room_data r.room_id
  data_of (start r) st = room_data r.room_id
  data_of (get_paper room_id) st = room_data room_id
  data_of submit_exam st = exam_data st.exam
  data_of (start_practice qcount minutes) st = start_practice_data qcount minutes
  data_of submit_practice st = practice_data st.practice
  data_of (room_results room_id) st = room_data room_id
  data_of my_history st = js.object

module _ {J : Type 0} where
  -- The message that send_request makes.
  unfoldable pub request_of : String → String → J → Message J
  request_of token action d = record {
    type = request;
    action = action;
    timestamp = 0;
    session_id = token;
    payload = d;
    status = unset;
    error_code = "";
    error_message = "";
  }

module _ {J : Type 0} (js : JsonApi J) (evp : Evp) where
  -- The bytes that went out, and the state with the error where none did.
  unfoldable pub send_request :
      Bool → List Taking → String → J → ClientState → Option (List ℕ) × ClientState
  send_request connected takings action d st =
      elim (send_message js evp connected takings (request_of st.token action d)) [
        | ok bytes ↦ (some bytes, st)
        | err e ↦ (none, record st { last_errors = e })
      ]

module _ {J D : Type 0} (js : JsonApi J) (jd : JsonData J D) (evp : Evp) where
  unfoldable pub press : Bool → List Taking → Button → ClientState → Option (List ℕ) × ClientState
  press connected takings button st =
      let st' = typed button st in
      send_request js evp connected takings (action_of button) (data_of js jd button st') st'

module _ {J D : Type 0} (js : JsonApi J) (jd : JsonData J D) where
  -- The message that a button sends.
  abbrev pub pressed : Button → ClientState → Message J
  pressed button st =
      let st' = typed button st in
      request_of st'.token (action_of button) (data_of js jd button st')

-- Connect, which shows how it went, unless std::terminate is called.
unfoldable pub press_connect : Dialing → ClientLink → ClientState → Connecting × ClientState
press_connect dialing link st =
    let c = connect dialing link in
    (
      c,
      elim c [
        | gives_up l ↦ record st { last_errors = "Connect failed" }
        | connects l ↦ record st { last_errors = "Connected" }
        | terminates ↦ st
      ],
    )

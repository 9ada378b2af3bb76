-- ===== src/Client/Window.antt =====
-- client/src/ui.cpp from an event to the state that the window shows. An exception that is not caught is an `err` with the text of its `what()`.
pub mod Buttons
pub mod Paper
pub mod Answers
pub mod Shown
pub mod Practice
pub mod Rooms
pub mod Lobby
pub mod Login
pub mod Events
pub mod Round
pub mod Responses
use Prim.Native.String.{◌++◌ as ◌joined◌}
use network_final_project.Base.{
  ℕ, zero, suc, String, Bool, true, false, Option, none, some, List, [], ◌∷◌, ◌++◌, ◌||◌, str_eq,
  if◌then◌else◌,
}
use network_final_project.Base.Int.{ℤ, pos}
use network_final_project.Base.Action.{Action, Result, ok, err, pure, ◌>>=◌, ◌>>◌, modify}
use network_final_project.Codec.Json.{JsonApi}
use network_final_project.Codec.Message.{Message, Status, error}
use network_final_project.Handlers.{JsonData, minus_one}
use network_final_project.Client.State.{
  RoomLine, Question, ExamSession, PracticeSession, ClientState, initial_state,
}
use network_final_project.Client.{Queue, pop_event}

-- What the window calls of nlohmann::json besides JsonData.
pub record JsonView (J : Type 0) : Type 0 where
  -- The keys and values that `items()` goes through.
  pub items : J → List (String × J)
  -- `dump(2)`, which throws on a text that is no UTF-8.
  pub dump_indented : J → Result String

-- A call that may throw and changes nothing.
abbrev pub trying : {S A : Type 0} → Result A → Action S A
trying r s = (r, s)

abbrev pub add_to_exam : Question → ClientState → ClientState
add_to_exam q st = record st { exam = record st.exam { questions = st.exam.questions ++ q ∷ [] } }

abbrev pub add_to_practice : Question → ClientState → ClientState
add_to_practice q st = record st {
  practice = record st.practice { questions = st.practice.questions ++ q ∷ [] };
}

abbrev pub clear_errors : Action ClientState (Unit {0})
clear_errors = modify λ st. record st { last_errors = "" }

abbrev pub show_error : {J : Type 0} → Message J → Action ClientState (Unit {0})
show_error m =
    modify λ st. record st { last_errors = m.error_code joined ": " joined m.error_message }

abbrev pub is_error : Status → Bool
is_error error = true
is_error _ = false

module _ {J D : Type 0} (js : JsonApi J) (jd : JsonData J D) (jv : JsonView J) where
  unfoldable pub read_line : J → Action ClientState RoomLine
  read_line r = do
    room_id ← trying (jd.value_int r "room_id" minus_one)
    code ← trying (jd.value_text r "room_code" "")
    name ← trying (jd.value_text r "room_name" "")
    status ← trying (jd.value_text r "status" "")
    seconds ← trying (jd.value_int r "duration_seconds" (pos 0))
    pure (record {
      room_id = room_id;
      room_code = code;
      room_name = name;
      status = status;
      duration_seconds = seconds;
    })

  unfoldable pub push_lines : List J → Action ClientState (Unit {0})
  push_lines [] = pure tt
  push_lines (r ∷ others) = do
    line ← read_line r
    modify (λ st. record st { rooms = st.rooms ++ line ∷ [] })
    push_lines others

  -- The loop over `q["options"].items()`.
  unfoldable pub read_options : List (String × J) → Result (List (String × String))
  read_options [] = ok []
  read_options ((key, v) ∷ others) = elim (jd.get_text v) [
    | err what ↦ err what
    | ok option ↦ elim (read_options others) [
      | err what ↦ err what
      | ok rest ↦ ok ((key, option) ∷ rest)
    ]
  ]

  unfoldable pub read_question : J → Action ClientState Question
  read_question q = do
    question_id ← trying (jd.value_int q "question_id" minus_one)
    text ← trying (jd.value_text q "question_text" "")
    difficulty ← trying (jd.value_text q "difficulty" "")
    topic ← trying (jd.value_text q "topic" "")
    options ← trying (read_options (jv.items (js.get q "options")))
    pure (record {
      question_id = question_id;
      text = text;
      difficulty = difficulty;
      topic = topic;
      options = options;
      answer = "";
    })

  -- The loops over `m.data["questions"]`, which differ in where they push to.
  unfoldable pub push_questions :
      (Question → ClientState → ClientState) → List J → Action ClientState (Unit {0})
  push_questions add [] = pure tt
  push_questions add (q ∷ others) = do
    question ← read_question q
    modify (add question)
    push_questions add others

  unfoldable pub show_login : Message J → Action ClientState (Unit {0})
  show_login m = do
    modify (λ st. record st { token = m.session_id })
    role ← trying (jd.value_text m.payload "role" "")
    modify (λ st. record st { role = role })
    clear_errors

  unfoldable pub show_rooms : J → Action ClientState (Unit {0})
  show_rooms d = do
    modify (λ st. record st { rooms = [] })
    push_lines (jd.elements (js.get d "rooms"))
    clear_errors

  unfoldable pub show_exam : J → Action ClientState (Unit {0})
  show_exam d = do
    exam_id ← trying (jd.value_int d "exam_id" minus_one)
    modify (λ st. record st { exam = record st.exam { exam_id = exam_id } })
    room_id ← trying (jd.value_int d "room_id" minus_one)
    modify (λ st. record st { exam = record st.exam { room_id = room_id; questions = [] } })
    push_questions add_to_exam (jd.elements (js.get d "questions"))
    clear_errors

  unfoldable pub show_practice : J → Action ClientState (Unit {0})
  show_practice d = do
    practice_id ← trying (jd.value_int d "practice_id" minus_one)
    modify (λ st. record st {
      practice = record st.practice { practice_id = practice_id; questions = [] };
    })
    push_questions add_to_practice (jd.elements (js.get d "questions"))
    clear_errors

  unfoldable pub show_results : J → Action ClientState (Unit {0})
  show_results d = do
    shown ← trying (jv.dump_indented d)
    modify (λ st. record st { last_results = shown })
    clear_errors

  unfoldable pub handle_event : Message J → Action ClientState (Unit {0})
  handle_event m =
      if is_error m.status
      then show_error m
      else if str_eq m.action "LOGIN"
      then show_login m
      else if str_eq m.action "LIST_ROOMS"
      then show_rooms m.payload
      else if str_eq m.action "GET_EXAM_PAPER"
      then show_exam m.payload
      else if str_eq m.action "START_PRACTICE"
      then show_practice m.payload
      else if str_eq m.action "SUBMIT_EXAM"
          || (str_eq m.action "SUBMIT_PRACTICE"
              || (str_eq m.action "GET_ROOM_RESULTS" || str_eq m.action "GET_USER_HISTORY"))
      then show_results m.payload
      else pure tt

  -- `while (auto ev = core.pop_event()) handle_event(state, *ev);` in render_ui, and the queue that
  -- it leaves. `none` is a loop that is still running.
  unfoldable pub drain : ℕ → Queue J → Action ClientState (Option (Queue J))
  drain zero queue = pure none
  drain (suc n) queue =
      let (ev, rest) = pop_event queue in
      elim ev [ none ↦ pure (some rest) | some m ↦ handle_event m >> drain n rest ]

-- ===== src/Server.antt =====
-- server/src/server.cpp: the table of handlers and the task that answers one message, with the table
-- that server/src/main.cpp fills.
pub mod Connection
pub mod Listener
pub mod Lifetime
pub mod Table
pub mod Accounts
pub mod Guard
pub mod Answers
pub mod History
pub mod Conversation
use network_final_project.Base.{
  ℕ, String, Bool, true, false, Option, none, some, List, [], ◌∷◌, str_eq, if◌then◌else◌,
}
use network_final_project.Base.Action.{Action, Result, ok, err}
use network_final_project.Codec.Json.{JsonApi}
use network_final_project.Codec.Message.{Message, MessageType, response, Status, success, error}
use network_final_project.Db.{Db, Floats}
use network_final_project.Db.Env.{Env}
use network_final_project.Handlers.{JsonData, Flow, value, refused, thrown, Handling, Reply}
use network_final_project.Handlers.Account.{
  echo_handler, register_request, login_request, logout_request,
}
use network_final_project.Handlers.Rooms.{
  create_room_request, list_rooms_request, join_room_request, start_exam_request,
  delete_room_request, finish_room_request, room_details_request, room_results_request,
}
use network_final_project.Handlers.Exams.{
  exam_paper_request, timer_request, submit_answer_request, submit_exam_request,
}
use network_final_project.Handlers.Practice.{
  start_practice_request, submit_practice_request, user_history_request,
}

-- `std::map<std::string, HandlerFn>`, and the assignment `handlers_[action] = handler`.
module _ {H : Type 0} where
  unfoldable pub register_handler : String → H → List (String × H) → List (String × H)
  register_handler action handler [] = (action, handler) ∷ []
  register_handler action handler ((key, h) ∷ rest) =
      let later = register_handler action handler rest in
      if str_eq key action then (action, handler) ∷ rest else (key, h) ∷ later

  unfoldable pub find_handler : String → List (String × H) → Option H
  find_handler action [] = none
  find_handler action ((key, h) ∷ rest) =
      if str_eq key action then some h else find_handler action rest

-- A body as in Handlers, by what its calls of the services find.
abbrev pub Body : Type 0 → Type 0 → Type 0
Body J D = (ℕ → Env) → Message J → Handling (Db D) (Reply J)

module _ {J : Type 0} (js : JsonApi J) where
  -- `make_error`, and the response that a handler fills in where it refuses.
  unfoldable pub make_error : ℕ → Message J → String → String → Message J
  make_error now req code text = record {
    type = response;
    action = req.action;
    timestamp = now;
    session_id = "";
    payload = js.object;
    status = error;
    error_code = code;
    error_message = text;
  }

module _ {J : Type 0} where
  unfoldable pub make_success : ℕ → Message J → Reply J → Message J
  make_success now req r = record {
    type = response;
    action = req.action;
    timestamp = now;
    session_id = r.session_id;
    payload = r.payload;
    status = success;
    error_code = "";
    error_message = "";
  }

  -- What a worker does to the answer before it is sent.
  unfoldable pub complete : ℕ → Message J → Message J → Message J
  complete now msg resp = record resp {
    type = response;
    action = if str_eq resp.action "" then msg.action else resp.action;
    session_id = if str_eq resp.session_id "" then msg.session_id else resp.session_id;
    timestamp = now;
  }

module _ {J D : Type 0} (js : JsonApi J) where
  -- The message that a body stands for, or the exception that it throws.
  unfoldable pub handle : Body J D → (ℕ → Env) → ℕ → Message J → Action (Db D) (Message J)
  handle body env now req db =
      let (r, db') = body env req db in
      elim r [
        | value reply ↦ (ok (make_success now req reply), db')
        | refused code text ↦ (ok (make_error js now req code text), db')
        | thrown text ↦ (err text, db')
      ]

  -- The task of handle_message up to `conn->send(resp)`. `clock n` is the n-th reading of the time.
  unfoldable pub answer :
      List (String × Body J D) → (ℕ → Env) → (ℕ → ℕ) → Message J → Db D → Message J × Db D
  answer handlers env clock msg db = elim (find_handler msg.action handlers) [
    | none ↦ (
      complete (clock 1) msg (make_error js (clock 0) msg "UNKNOWN_ACTION" "Action not supported"),
      db,
    )
    | some body ↦
        let (r, db') = handle body env (clock 0) msg db in
        elim r [
          | ok resp ↦ (complete (clock 1) msg resp, db')
          | err what ↦
              (complete (clock 1) msg (make_error js (clock 0) msg "HANDLER_ERROR" what), db')
        ]
  ]

module _ {J D : Type 0} (js : JsonApi J) (jd : JsonData J D) (fl : Floats D) where
  abbrev pub register_all :
      List (String × Body J D) → List (String × Body J D) → List (String × Body J D)
  register_all [] table = table
  register_all ((action, body) ∷ rest) table =
      register_all rest (register_handler action body table)

  -- What main registers, in its order.
  abbrev pub registrations : List (String × Body J D)
  registrations =
      ("ECHO", echo_handler js jd)
      ∷ ("REGISTER", register_request js jd)
      ∷ ("LOGIN", login_request js jd)
      ∷ ("LOGOUT", logout_request js jd)
      ∷ ("CREATE_ROOM", create_room_request js jd)
      ∷ ("LIST_ROOMS", list_rooms_request js jd)
      ∷ ("JOIN_ROOM", join_room_request js jd)
      ∷ ("START_EXAM", start_exam_request js jd)
      ∷ ("GET_EXAM_PAPER", exam_paper_request js jd)
      ∷ ("GET_TIMER_STATUS", timer_request js jd)
      ∷ ("SUBMIT_ANSWER", submit_answer_request js jd)
      ∷ ("SUBMIT_EXAM", (λ env. submit_exam_request js jd env fl))
      ∷ ("START_PRACTICE", start_practice_request js jd)
      ∷ ("SUBMIT_PRACTICE", (λ env. submit_practice_request js jd env fl))
      ∷ ("GET_ROOM_RESULTS", (λ env. room_results_request js jd env fl))
      ∷ ("GET_ROOM_DETAILS", room_details_request js jd)
      ∷ ("DELETE_ROOM", delete_room_request js jd)
      ∷ ("FINISH_ROOM", finish_room_request js jd)
      ∷ ("GET_USER_HISTORY", (λ env. user_history_request js jd env fl))
      ∷ []

  unfoldable pub main_handlers : List (String × Body J D)
  main_handlers = register_all registrations []

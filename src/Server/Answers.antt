-- ===== src/Server/Answers.antt =====
-- server/src/server.cpp: the responses, and what the codec of the other side makes of them.
use network_final_project.Base.{
  ℕ, ◌<◌, ◌^◌, ◌≡◌, ◌≢◌, sym, ◌∙◌, ap, inl, inr, some, List, String, true, false, arith,
  Option-cases,
}
use mathlib.Core.Path.{subst}
use network_final_project.Base.Action.{ok}
use network_final_project.Codec.Json.{JsonApi, JsonLaws}
use network_final_project.Codec.Message.{
  Message, response, is_unset, message_to_json, message_from_json,
}
use network_final_project.Codec.Message.RoundTrip.{message_from_json-message_to_json}
use network_final_project.Db.{Db, Floats}
use network_final_project.Db.Env.{Env}
use network_final_project.Handlers.{JsonData, value, Reply}
use network_final_project.Handlers.Account.{register_request, login_request, logout_request}
use network_final_project.Handlers.Rooms.{
  create_room_request, list_rooms_request, join_room_request, start_exam_request,
  delete_room_request, finish_room_request, room_details_request, room_results_request,
}
use network_final_project.Handlers.Exams.{
  exam_paper_request, timer_request, submit_answer_request, submit_exam_request,
}
use network_final_project.Handlers.Practice.{
  start_practice_request, submit_practice_request, user_history_request,
}
use network_final_project.Handlers.Rules.{Flow-cases}
use network_final_project.Handlers.Replies.{
  HasObject, echo_handler-HasObject, register_request-HasObject, login_request-HasObject,
  logout_request-HasObject, create_room_request-HasObject, list_rooms_request-HasObject,
  join_room_request-HasObject, start_exam_request-HasObject, exam_paper_request-HasObject,
  timer_request-HasObject, submit_answer_request-HasObject, submit_exam_request-HasObject,
  start_practice_request-HasObject, submit_practice_request-HasObject,
  room_results_request-HasObject, room_details_request-HasObject, delete_room_request-HasObject,
  finish_room_request-HasObject, user_history_request-HasObject,
}
use network_final_project.Server.{
  Body, find_handler, make_error, make_success, complete, handle, answer, registrations,
  main_handlers,
}
use network_final_project.Server.Table.{◌also◌, AllHandlers, main_handlers-AllHandlers}

-- The answer of a handler that ends with data.
module _ {J D : Type 0} (js : JsonApi J) (env : ℕ → Env) (clock : ℕ → ℕ) where
  pub answer-value :
      (handlers : List (String × Body J D)) (body : Body J D) (msg : Message J) (db db' : Db D)
      (r : Reply J)
      → find_handler msg.action handlers ≡ some body
      → body env msg db ≡ (value r, db')
      → answer js handlers env clock msg db
        ≡ (complete (clock 1) msg (make_success (clock 0) msg r), db')
  unfolding answer handle
  answer-value handlers body msg db db' r found ran = ground (arith, found, ran)

module _ {J : Type 0} (js : JsonApi J) where
  -- A response to a message.
  unfoldable pub IsResponse : ℕ → Message J → Message J → Type 0
  IsResponse now msg resp =
      (resp.type ≡ response)
      × (resp.action ≡ msg.action)
      × (resp.timestamp ≡ now)
      × (is_unset resp.status ≡ false)
      × (js.is_object resp.payload ≡ true)

module _ {J D : Type 0} (js : JsonApi J) (laws : JsonLaws js) (jd : JsonData J D)
    (fl : Floats D) where
  abbrev Replies : String → Body J D → Type 0
  Replies action body =
      (env : ℕ → Env) (req : Message J) (db : Db D)
      → js.is_object req.payload ≡ true
      → HasObject js (body env req db).0

  of_any :
      (action : String) (body : Body J D)
      → ((env : ℕ → Env) (req : Message J) (db : Db D) → HasObject js (body env req db).0)
      → Replies action body
  of_any action body h env req db given = h env req db

  registrations-Replies : AllHandlers Replies (registrations js jd fl)
  registrations-Replies =
      echo_handler-HasObject js laws jd fl
      also of_any "REGISTER" (register_request js jd) (register_request-HasObject js laws jd fl)
      also of_any "LOGIN" (login_request js jd) (login_request-HasObject js laws jd fl)
      also of_any "LOGOUT" (logout_request js jd) (logout_request-HasObject js laws jd fl)
      also of_any "CREATE_ROOM" (create_room_request js jd)
          (create_room_request-HasObject js laws jd fl)
      also of_any "LIST_ROOMS" (list_rooms_request js jd)
          (list_rooms_request-HasObject js laws jd fl)
      also of_any "JOIN_ROOM" (join_room_request js jd) (join_room_request-HasObject js laws jd fl)
      also of_any "START_EXAM" (start_exam_request js jd)
          (start_exam_request-HasObject js laws jd fl)
      also of_any "GET_EXAM_PAPER" (exam_paper_request js jd)
          (exam_paper_request-HasObject js laws jd fl)
      also of_any "GET_TIMER_STATUS" (timer_request js jd) (timer_request-HasObject js laws jd fl)
      also of_any "SUBMIT_ANSWER" (submit_answer_request js jd)
          (submit_answer_request-HasObject js laws jd fl)
      also of_any "SUBMIT_EXAM" (λ env. submit_exam_request js jd env fl)
          (submit_exam_request-HasObject js laws jd fl)
      also of_any "START_PRACTICE" (start_practice_request js jd)
          (start_practice_request-HasObject js laws jd fl)
      also of_any "SUBMIT_PRACTICE" (λ env. submit_practice_request js jd env fl)
          (submit_practice_request-HasObject js laws jd fl)
      also of_any "GET_ROOM_RESULTS" (λ env. room_results_request js jd env fl)
          (room_results_request-HasObject js laws jd fl)
      also of_any "GET_ROOM_DETAILS" (room_details_request js jd)
          (room_details_request-HasObject js laws jd fl)
      also of_any "DELETE_ROOM" (delete_room_request js jd)
          (delete_room_request-HasObject js laws jd fl)
      also of_any "FINISH_ROOM" (finish_room_request js jd)
          (finish_room_request-HasObject js laws jd fl)
      also of_any "GET_USER_HISTORY" (λ env. user_history_request js jd env fl)
          (user_history_request-HasObject js laws jd fl)
      also tt

  make_success-IsResponse :
      (now start : ℕ) (msg : Message J) (r : Reply J)
      → HasObject js (value r)
      → IsResponse js now msg (complete now msg (make_success start msg r))
  unfolding IsResponse complete make_success HasObject
  make_success-IsResponse now start msg r object = ground arith

  make_error-IsResponse :
      (now start : ℕ) (msg : Message J) (code text : String)
      → IsResponse js now msg (complete now msg (make_error js start msg code text))
  unfolding IsResponse complete make_error
  make_error-IsResponse now start msg code text = ground (arith, laws.object_lem)

  pub answer-IsResponse :
      (env : ℕ → Env) (clock : ℕ → ℕ) (msg : Message J) (db : Db D)
      → js.is_object msg.payload ≡ true
      → IsResponse js (clock 1) msg (answer js (main_handlers js jd fl) env clock msg db).0
  unfolding answer handle
  answer-IsResponse env clock msg db given =
      elim (Option-cases (find_handler msg.action (main_handlers js jd fl))) [
        | inl absent ↦
            subst (IsResponse js (clock 1) msg) (ground arith) (
              make_error-IsResponse (clock 1) (clock 0) msg "UNKNOWN_ACTION" "Action not supported")
        | inr (body, found) ↦
            let object =
              main_handlers-AllHandlers js jd fl Replies registrations-Replies msg.action body found
                env msg db given in
            elim (Flow-cases (body env msg db).0) [
              | inl (r, e) ↦ subst (IsResponse js (clock 1) msg) (ground arith) (
                  make_success-IsResponse (clock 1) (clock 0) msg r (subst (HasObject js) e object))
              | inr (inl (code, text, e)) ↦
                  subst (IsResponse js (clock 1) msg) (ground arith)
                    (make_error-IsResponse (clock 1) (clock 0) msg code text)
              | inr (inr (text, e)) ↦
                  subst (IsResponse js (clock 1) msg) (ground arith)
                    (make_error-IsResponse (clock 1) (clock 0) msg "HANDLER_ERROR" text)
            ]
      ]

  -- When the JSON library behaves as documented and the time fits 64 bits: every message with an
  -- action and an object as its data has an answer, which is a response to that action with the
  -- time of its sending, a status and an object as its data, and which the client reads from its
  -- JSON as it was sent.
  pub message_from_json-answer :
      (env : ℕ → Env) (clock : ℕ → ℕ) (msg : Message J) (db : Db D)
      → msg.action ≢ ""
      → js.is_object msg.payload ≡ true
      → clock 1 < 2 ^ 64
      → IsResponse js (clock 1) msg (answer js (main_handlers js jd fl) env clock msg db).0
        × (message_from_json js
              (message_to_json js (answer js (main_handlers js jd fl) env clock msg db).0)
            ≡ ok (answer js (main_handlers js jd fl) env clock msg db).0)
  unfolding IsResponse
  message_from_json-answer env clock msg db named given small =
      let resp = (answer js (main_handlers js jd fl) env clock msg db).0 in
      let (kind, action, time, status, object) = answer-IsResponse env clock msg db given in
      (
        (kind, action, time, status, object),
        message_from_json-message_to_json js laws resp (λ e. named (sym action ∙ e)) (ground arith)
              (ground arith) (ground arith)
            ∙ ap (λ p. ok (record resp { payload = p }))
                (ground (arith, laws.object_not_null resp.payload object)),
      )

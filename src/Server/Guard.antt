-- ===== src/Server/Guard.antt =====
-- server/src/main.cpp and server/src/server.cpp: what a message may change, as a short account of who
-- may do what.
use network_final_project.Base.{
  ℕ, ◌≡◌, refl, ◌⊎◌, inl, inr, String, Bool, true, false, ◌||◌, none, str_eq, arith, Option-cases,
}
use mathlib.Core.Path.{subst}
use network_final_project.Base.Action.{ok, err}
use network_final_project.Codec.Json.{JsonApi}
use network_final_project.Codec.Message.{Message, error}
use network_final_project.Db.{Db, Floats}
use network_final_project.Db.Env.{Env}
use network_final_project.Auth.{SessionInfo, validate}
use network_final_project.Handlers.{JsonData}
use network_final_project.Handlers.Access.{Acts, Verdict, rejects, admits}
use network_final_project.Handlers.Access.Rooms.{
  create_room_request-Verdict, list_rooms_request-Verdict, join_room_request-Verdict,
  start_exam_request-Verdict, delete_room_request-Verdict, finish_room_request-Verdict,
  room_details_request-Verdict, room_results_request-Verdict,
}
use network_final_project.Handlers.Access.Exams.{
  exam_paper_request-Verdict, timer_request-Verdict, submit_answer_request-Verdict,
  submit_exam_request-Verdict,
}
use network_final_project.Handlers.Access.Practice.{
  start_practice_request-Verdict, submit_practice_request-Verdict, user_history_request-Verdict,
}
use network_final_project.Server.{
  Body, register_handler, find_handler, make_error, complete, handle, answer, registrations,
  main_handlers,
}
use network_final_project.Server.Accounts.{
  IsAccounts, echo_handler-IsAccounts, register_request-IsAccounts, login_request-IsAccounts,
  logout_request-IsAccounts,
}
use network_final_project.Server.Table.{◌also◌, AllHandlers, main_handlers-AllHandlers}

-- The actions that need no session.
unfoldable pub is_public : String → Bool
is_public action =
    str_eq "ECHO" action
    || (str_eq "REGISTER" action || (str_eq "LOGIN" action || str_eq "LOGOUT" action))

module _ {J D : Type 0} (js : JsonApi J) (jd : JsonData J D) (fl : Floats D) where
  abbrev IsLawful : String → Body J D → Type 0
  IsLawful action body =
      (env : ℕ → Env) (req : Message J) (db : Db D)
      → ((is_public action ≡ true) × IsAccounts db (body env req db).1)
        ⊎ Verdict fl env req.session_id db (body env req db)

  needs_session :
      (action : String) (body : Body J D)
      → ((env : ℕ → Env) (req : Message J) (db : Db D)
          → Verdict fl env req.session_id db (body env req db))
      → IsLawful action body
  needs_session action body h env req db = inr (h env req db)

  needs_none :
      (action : String) (body : Body J D)
      → is_public action ≡ true
      → ((env : ℕ → Env) (req : Message J) (db : Db D) → IsAccounts db (body env req db).1)
      → IsLawful action body
  needs_none action body public h env req db = inl (public, h env req db)

  registrations-AllHandlers : AllHandlers IsLawful (registrations js jd fl)
  unfolding is_public
  registrations-AllHandlers =
      needs_none "ECHO" _ refl (echo_handler-IsAccounts js jd)
      also needs_none "REGISTER" _ refl (register_request-IsAccounts js jd)
      also needs_none "LOGIN" _ refl (login_request-IsAccounts js jd)
      also needs_none "LOGOUT" _ refl (logout_request-IsAccounts js jd)
      also needs_session "CREATE_ROOM" _ (create_room_request-Verdict js jd fl)
      also needs_session "LIST_ROOMS" _ (list_rooms_request-Verdict js jd fl)
      also needs_session "JOIN_ROOM" _ (join_room_request-Verdict js jd fl)
      also needs_session "START_EXAM" _ (start_exam_request-Verdict js jd fl)
      also needs_session "GET_EXAM_PAPER" _ (exam_paper_request-Verdict js jd fl)
      also needs_session "GET_TIMER_STATUS" _ (timer_request-Verdict js jd fl)
      also needs_session "SUBMIT_ANSWER" _ (submit_answer_request-Verdict js jd fl)
      also needs_session "SUBMIT_EXAM" _ (submit_exam_request-Verdict js jd fl)
      also needs_session "START_PRACTICE" _ (start_practice_request-Verdict js jd fl)
      also needs_session "SUBMIT_PRACTICE" _ (submit_practice_request-Verdict js jd fl)
      also needs_session "GET_ROOM_RESULTS" _ (room_results_request-Verdict js jd fl)
      also needs_session "GET_ROOM_DETAILS" _ (room_details_request-Verdict js jd fl)
      also needs_session "DELETE_ROOM" _ (delete_room_request-Verdict js jd fl)
      also needs_session "FINISH_ROOM" _ (finish_room_request-Verdict js jd fl)
      also needs_session "GET_USER_HISTORY" _ (user_history_request-Verdict js jd fl)
      also tt

  -- The four actions that need no session have their handlers.
  unknown_action :
      (action : String)
      → find_handler action (main_handlers js jd fl) ≡ none
      → is_public action ≡ false
  unfolding find_handler main_handlers register_handler is_public
  unknown_action action absent = ground arith

-- What answering one message may come to, with the response and the database that it leaves.
pub data Served {J D : Type 0} (fl : Floats D) (env : ℕ → Env) (msg : Message J) (db : Db D)
    (done : Message J × Db D) : Type 0 where
  unknown :
      is_public msg.action ≡ false
      → done.0.status ≡ error
      → done.0.error_code ≡ "UNKNOWN_ACTION"
      → done.1 ≡ db
      → Served fl env msg db done
  opens : is_public msg.action ≡ true → IsAccounts db done.1 → Served fl env msg db done
  refuses :
      (e : String)
      → (validate (env 0) msg.session_id db).0 ≡ err e
      → done.0.status ≡ error
      → done.0.error_code ≡ "UNAUTHORIZED"
      → done.0.error_message ≡ e
      → done.1 ≡ (validate (env 0) msg.session_id db).1
      → Served fl env msg db done
  serves :
      (s : SessionInfo)
      → (validate (env 0) msg.session_id db).0 ≡ ok s
      → Acts fl env s.user_id (validate (env 0) msg.session_id db).1 done.1
      → Served fl env msg db done

module _ {J D : Type 0} (js : JsonApi J) (jd : JsonData J D) (fl : Floats D) where
  -- Whatever a worker is given to answer, it finds no handler and changes nothing; or the action is
  -- ECHO, REGISTER, LOGIN or LOGOUT and no table but those of users and sessions changes; or the
  -- session is not valid, the answer is UNAUTHORIZED with the text of the error, and nothing but
  -- that session changes; or it is valid, and the database is changed by at most one call of
  -- RoomManager, made for the user of the session, or for an exam that this user owns.
  pub answer-Served :
      (env : ℕ → Env) (clock : ℕ → ℕ) (msg : Message J) (db : Db D)
      → Served fl env msg db (answer js (main_handlers js jd fl) env clock msg db)
  unfolding answer complete make_error handle main_handlers
  answer-Served env clock msg db =
      elim (Option-cases (find_handler msg.action (main_handlers js jd fl))) [
        | inl absent ↦
            unknown (unknown_action js jd fl msg.action absent) (ground arith) (ground arith)
              (ground arith)
        | inr (body, found) ↦
            elim (main_handlers-AllHandlers js jd fl (IsLawful js jd fl)
              (registrations-AllHandlers js jd fl) msg.action body found env msg db) [
                | inl (public, same) ↦ opens public (ground arith)
                | inr (rejects e refusal outcome) ↦
                    refuses e refusal (ground arith) (ground arith) (ground arith) (ground arith)
                | inr (admits s accepted acts) ↦
                    serves s accepted (subst (Acts fl env s.user_id _) (ground arith) acts)
              ]
      ]

-- ===== src/Db/Env.antt =====
-- What server/src/auth.cpp and server/src/room.cpp get from outside: SQLite's verdict on each
-- call, the clock, randomness and `std::hash`. A verdict of `none` is SQLITE_OK or SQLITE_DONE, and
-- `some e` is a failure with `sqlite3_errmsg` e.
use network_final_project.Base.{ℕ, ◌≡◌, true, String, Option, none, some, List, false, Bool, not}
use network_final_project.Db.{QuestionRow, PaperQuestion}
use network_final_project.Base.Action.{Action, ok, err, refuse_if}

-- The SQL texts of the two files, a constructor each.
pub data Stmt : Type 0 where
  insert_user select_user insert_session delete_session select_session delete_expired : Stmt
  insert_room select_rooms select_room_access insert_participant start_waiting_room : Stmt
  select_by_difficulty select_missing select_filtered : Stmt
  select_exam insert_exam select_exam_questions insert_exam_question : Stmt
  select_room_settings update_exam_total : Stmt
  upsert_answer select_submitted_at select_graded update_submitted : Stmt
  select_participant select_owner select_room_status : Stmt
  insert_practice select_correct_option update_practice : Stmt
  select_results select_history_exams select_history_practices : Stmt
  select_room_info select_participants : Stmt
  select_expired select_total update_expired select_timer : Stmt
  select_creator delete_room_row update_finished : Stmt
  begin_immediate commit rollback_all : Stmt

pub record Env : Type 0 where
  pub opens : Bool
  pub prepare : Stmt → Option String
  -- The verdict on the n-th step of a statement in one operation.
  pub step : Stmt → ℕ → Option String
  pub exec : Stmt → Option String
  -- The n-th reading of the clock in one operation, in seconds.
  pub clock : ℕ → ℕ
  -- The n-th draw of a 64-bit random number.
  pub draw : ℕ → ℕ
  pub hash : String → ℕ
  -- The n-th `ORDER BY RANDOM()` of one operation, and `std::shuffle`.
  pub random_order : ℕ → List QuestionRow → List QuestionRow
  pub shuffle : List PaperQuestion → List PaperQuestion

abbrev pub or_errmsg : {S : Type 0} → Option String → Action S (Unit {0})
or_errmsg none s = (ok tt, s)
or_errmsg (some e) s = (err e, s)

-- `if (!open_db()) { *error = "DB open failed"; return …; }`
abbrev pub opened : {S : Type 0} → Env → Action S (Unit {0})
opened env = refuse_if (not env.opens) "DB open failed"

-- `if (sqlite3_prepare_v2(…) != SQLITE_OK) { *error = sqlite3_errmsg(db_); return …; }`
abbrev pub prepare : {S : Type 0} → Env → Stmt → Action S (Unit {0})
prepare env q = or_errmsg (env.prepare q)

-- `if (sqlite3_step(stmt) != SQLITE_DONE) { *error = sqlite3_errmsg(db_); return …; }`
abbrev pub done : {S : Type 0} → Env → Stmt → ℕ → Action S (Unit {0})
done env q n = or_errmsg (env.step q n)

-- `sqlite3_prepare_v2(…) == SQLITE_OK`
abbrev pub prepares : Env → Stmt → Bool
prepares env q = elim (env.prepare q) [ none ↦ true | some e ↦ false ]

-- `sqlite3_step(stmt) == SQLITE_DONE`
abbrev pub steps : Env → Stmt → ℕ → Bool
steps env q n = elim (env.step q n) [ none ↦ true | some e ↦ false ]

-- SQLite accepts every call.
pub record IsUp (env : Env) : Type 0 where
  pub opened_up : env.opens ≡ true
  pub prepared : (q : Stmt) → env.prepare q ≡ none
  pub stepped : (q : Stmt) (n : ℕ) → env.step q n ≡ none
  pub executed : (q : Stmt) → env.exec q ≡ none

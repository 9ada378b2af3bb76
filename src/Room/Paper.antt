-- ===== src/Room/Paper.antt =====
-- server/src/room.cpp: ensure_exam, load_exam_questions, save_exam_questions and get_exam_paper.
pub mod Draws
pub mod Blind
use Prim.Native.String
use network_final_project.Base.{
  ℕ, suc, String, Bool, not, ◌&&◌, none, some, List, [], ◌∷◌, ◌++◌, ltb, ◌==◌, if◌then◌else◌,
  length, first, select, update, any,
}
use network_final_project.Base.Int.{pos, ◌+ℤ◌, is_positive}
use network_final_project.Base.Action.{
  Action, ok, err, pure, fail, gets, or_fail, ◌>>=◌, ◌>>◌, refuse_if, modify,
}
use network_final_project.Db.{Db, QuestionRow, PaperQuestion, RoomRow, ExamRow, ExamQuestionRow}
use network_final_project.Db.Env.{
  Env, select_exam, insert_exam, select_exam_questions, insert_exam_question, select_room_settings,
  update_exam_total, begin_immediate, commit, rollback_all, opened, prepare, done, prepares, steps,
}
use network_final_project.Auth.{add_u64}
use network_final_project.Room.{RoomSettings, is_in_progress, find_room, to_u64, order_by}
use network_final_project.Room.Lifecycle.{is_participant}
use network_final_project.Room.Questions.{pick_questions, paper_question}

pub record ExamPaper : Type 0 where
  pub exam_id : ℕ
  pub room_id : ℕ
  pub questions : List PaperQuestion
  pub start_time : ℕ
  pub end_time : ℕ

abbrev pub is_exam_of : {D : Type 0} → ℕ → ℕ → ExamRow D → Bool
is_exam_of rid uid e = e.room_id == rid && e.user_id == uid

abbrev pub has_exam_id : {D : Type 0} → ℕ → ExamRow D → Bool
has_exam_id eid e = e.id == eid

-- `JOIN questions q ON eq.question_id = q.id`: a row whose question is gone gives nothing.
unfoldable pub join_questions : List QuestionRow → List ExamQuestionRow → List PaperQuestion
join_questions bank [] = []
join_questions bank (r ∷ rs) =
    let later = join_questions bank rs in
    elim (first (λ q. q.id == r.question_id) bank) [
      | none ↦ later
      | some q ↦ paper_question q ∷ later
    ]

abbrev pub rows_of_exam : ℕ → List ExamQuestionRow → List ExamQuestionRow
rows_of_exam exam_id rows = select (λ r. r.exam_id == exam_id) rows

-- A statement that cannot be prepared gives an empty list. options_json is parsed as in
-- `paper_question`.
unfoldable pub load_exam_questions : {D : Type 0} → Env → ℕ → Db D → List PaperQuestion
load_exam_questions env exam_id db =
    if prepares env select_exam_questions
    then join_questions db.questions
        (order_by (λ r. r.question_order) (rows_of_exam exam_id db.exam_questions))
    else []

-- The settings that get_exam_paper draws by: a total of 0 is the sum of the parts, and if that is
-- 0 too, ten questions.
unfoldable pub paper_settings : RoomRow → RoomSettings
paper_settings r =
    let total =
      if is_positive r.total_questions
      then r.total_questions
      else r.easy_count +ℤ r.medium_count +ℤ r.hard_count in
    if is_positive total
    then record {
      total_questions = total;
      duration_seconds = r.duration_sec;
      easy = r.easy_count;
      medium = r.medium_count;
      hard = r.hard_count;
    }
    else record {
      total_questions = pos 10;
      duration_seconds = r.duration_sec;
      easy = pos 4;
      medium = pos 4;
      hard = pos 2;
    }

-- The row that ensure_exam inserts.
abbrev pub new_exam : {D : Type 0} → ℕ → ℕ → ℕ → ℕ → ℕ → ExamRow D
new_exam new_id room_id user_id start_time end_time = record {
  id = new_id;
  room_id = room_id;
  user_id = user_id;
  start_at = start_time;
  end_at = end_time;
  submitted_at = none;
  score = none;
  correct_count = none;
  total_questions = 0;
}

module _ {D : Type 0} (env : Env) where
  -- The loop of save_exam_questions, from the i-th question on: PRIMARY KEY(exam_id, question_id).
  unfoldable pub save_from : ℕ → ℕ → List PaperQuestion → Action (Db D) (Unit {0})
  save_from exam_id i [] = pure tt
  save_from exam_id i (q ∷ qs) = do
    done env insert_exam_question i
    known ←
        gets (λ db.
          any (λ r. r.exam_id == exam_id && r.question_id == q.question_id) db.exam_questions)
    refuse_if known "UNIQUE constraint failed: exam_questions.exam_id, exam_questions.question_id"
    modify λ db. record db {
      exam_questions =
          db.exam_questions
          ++ record { exam_id = exam_id; question_id = q.question_id; question_order = suc i } ∷ [];
    }
    save_from exam_id (suc i) qs

  unfoldable pub save_exam_questions : ℕ → List PaperQuestion → Action (Db D) (Unit {0})
  save_exam_questions exam_id questions = do
    prepare env insert_exam_question
    save_from exam_id 0 questions

  unfoldable pub insert_exam_row : ℕ → ℕ → ℕ → ℕ → Action (Db D) ℕ
  insert_exam_row room_id user_id start_time end_time = do
    prepare env insert_exam
    done env insert_exam 0
    new_id ← gets (λ db. db.next_exam)
    modify λ db. record db {
      exams = db.exams ++ new_exam new_id room_id user_id start_time end_time ∷ [];
      next_exam = suc new_id;
    }
    pure new_id

  unfoldable pub ensure_exam : ℕ → ℕ → ℕ → ℕ → Action (Db D) ℕ
  ensure_exam room_id user_id start_time end_time = do
    prepare env select_exam
    found ← gets (λ db. first (is_exam_of room_id user_id) db.exams)
    elim found [ some e ↦ pure e.id | none ↦ insert_exam_row room_id user_id start_time end_time ]

  -- The UPDATE whose verdict the source ignores.
  unfoldable pub set_total : ℕ → ℕ → Db D → Db D
  set_total exam_id n db =
      if prepares env update_exam_total && steps env update_exam_total 0
      then record db {
        exams = update (has_exam_id exam_id) (λ e. record e { total_questions = n }) db.exams;
      }
      else db

  -- `sqlite3_exec(db_, "ROLLBACK;", …)`, whose verdict the source ignores, and the error.
  unfoldable pub roll_back : {A : Type 0} → Db D → String → Action (Db D) A
  roll_back before e db = elim (env.exec rollback_all) [
    | none ↦ (err e, before)
    | some ignored ↦ (err e, db)
  ]

  -- `if (!save_exam_questions(…)) { ROLLBACK; return std::nullopt; }`
  unfoldable pub or_roll_back : {A : Type 0} → Db D → Action (Db D) A → Action (Db D) A
  unfolding roll_back
  or_roll_back before m db =
      let (r, db') = m db in elim r [ ok a ↦ (ok a, db') | err e ↦ roll_back before e db' ]

  -- From the load to the COMMIT, with the four ROLLBACKs of the source; `before` is what stood there at
  -- the BEGIN.
  unfoldable pub draw_paper : ℕ → RoomSettings → Action (Db D) (List PaperQuestion)
  unfolding or_roll_back roll_back
  draw_paper exam_id settings = do
    before ← gets (λ db. db)
    loaded ← gets (load_exam_questions env exam_id)
    if ltb 0 (length loaded)
        then roll_back before "You have already retrieved the exam paper. Cannot get it twice."
        else pure tt
    questions ← gets (pick_questions env settings)
    if length questions == 0
        then roll_back before
            (elim (env.prepare select_exam_questions) [ none ↦ "no questions" | some e ↦ e ])
        else pure tt
    or_roll_back before (save_exam_questions exam_id questions)
    modify (set_total exam_id (length questions))
    elim (env.exec commit) [
      | none ↦ pure questions
      | some e ↦ roll_back before (String.◌++◌ "Transaction commit failed: " e)
    ]

  -- `BEGIN IMMEDIATE`, and what follows if SQLite accepts it.
  unfoldable pub in_transaction : {A : Type 0} → Action (Db D) A → Action (Db D) A
  in_transaction body db = elim (env.exec begin_immediate) [
    | some e ↦ (err (String.◌++◌ "Transaction begin failed: " e), db)
    | none ↦ body db
  ]

  unfoldable pub get_exam_paper : ℕ → ℕ → Action (Db D) ExamPaper
  get_exam_paper room_id user_id = do
    opened env
    prepare env select_room_settings
    room ← or_fail (← gets (find_room room_id)) "room not found"
    refuse_if (not (is_in_progress room.status)) "room not started yet"
    joined ← gets (is_participant env room_id user_id)
    refuse_if (not joined) "not joined this room"
    let start = env.clock 0
    let end_time = add_u64 start (to_u64 room.duration_sec)
    exam_id ← ensure_exam room_id user_id start end_time
    questions ← in_transaction (draw_paper exam_id (paper_settings room))
    pure (record {
      exam_id = exam_id;
      room_id = room_id;
      questions = questions;
      start_time = start;
      end_time = end_time;
    })

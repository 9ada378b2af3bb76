-- ===== src/Room/Grading.antt =====
-- server/src/room.cpp: submit_answers, submit_exam and auto_submit_expired_exams.
pub mod Upsert
pub mod Answers
pub mod Expiry
use network_final_project.Base.{
  ℕ, suc, ◌+◌, String, Bool, true, false, not, ◌&&◌, none, some, List, [], ◌∷◌, ◌++◌, map, ltb,
  ◌==◌, str_eq, if◌then◌else◌, length, first, select, update, any, c_str,
}
use network_final_project.Base.Action.{
  Action, ok, pure, gets, or_fail, ◌>>=◌, ◌>>◌, refuse_if, modify,
}
use network_final_project.Db.{Db, QuestionRow, ExamRow, AnswerRow, Floats}
use network_final_project.Db.Env.{
  Env, upsert_answer, select_submitted_at, select_graded, update_submitted, select_expired,
  select_total, update_expired, opened, prepare, done, prepares, steps,
}
use network_final_project.Room.Paper.{has_exam_id}

-- The conflict target (exam_id, question_id).
abbrev pub answers_question : ℕ → ℕ → AnswerRow → Bool
answers_question eid qid a = a.exam_id == eid && a.question_id == qid

-- `INSERT … ON CONFLICT(exam_id, question_id) DO UPDATE SET selected_option, updated_at`
unfoldable pub upsert : AnswerRow → List AnswerRow → List AnswerRow
upsert a rows =
    if any (answers_question a.exam_id a.question_id) rows
    then update (answers_question a.exam_id a.question_id)
        (λ r. record r { selected_option = a.selected_option; updated_at = a.updated_at }) rows
    else rows ++ a ∷ []

pub record Grade (D : Type 0) : Type 0 where
  pub correct : ℕ
  pub total : ℕ
  pub score : D

-- `FROM answers a JOIN questions q ON a.question_id = q.id WHERE a.exam_id = ?`: the selected and
-- the correct option of each row.
unfoldable pub graded_rows : ℕ → List QuestionRow → List AnswerRow → List (String × String)
graded_rows eid bank [] = []
graded_rows eid bank (a ∷ rest) =
    let later = graded_rows eid bank rest in
    if a.exam_id == eid
    then elim (first (λ q. q.id == a.question_id) bank) [
      | none ↦ later
      | some q ↦ (a.selected_option, q.correct_option) ∷ later
    ]
    else later

unfoldable pub count_correct : List (String × String) → ℕ
count_correct [] = 0
count_correct ((selected, right) ∷ rest) =
    (if str_eq selected right then 1 else 0) + count_correct rest

abbrev pub is_open : {D : Type 0} → ExamRow D → Bool
is_open e = elim e.submitted_at [ none ↦ true | some t ↦ false ]

abbrev pub submit_row : {D : Type 0} → ℕ → Grade D → ExamRow D → ExamRow D
submit_row now g e = record e {
  submitted_at = some now;
  correct_count = some g.correct;
  score = some g.score;
  total_questions = g.total;
}

-- The row of the i-th answer of a call.
abbrev pub new_answer : Env → ℕ → ℕ → ℕ × String → AnswerRow
new_answer env exam_id i (question_id, selected) = record {
  exam_id = exam_id;
  question_id = question_id;
  selected_option = c_str selected;
  updated_at = env.clock i;
}

module _ {D : Type 0} (env : Env) where
  -- The loop of submit_answers, from the i-th answer on. A failure keeps what was saved before.
  unfoldable pub save_answers : ℕ → ℕ → List (ℕ × String) → Action (Db D) (Unit {0})
  save_answers exam_id i [] = pure tt
  save_answers exam_id i (a ∷ rest) = do
    done env upsert_answer i
    modify λ db. record db { answers = upsert (new_answer env exam_id i a) db.answers }
    save_answers exam_id (suc i) rest

  unfoldable pub submit_answers : ℕ → List (ℕ × String) → Action (Db D) (Unit {0})
  submit_answers exam_id answers = do
    opened env
    prepare env upsert_answer
    save_answers exam_id 0 answers

module _ {D : Type 0} (env : Env) (fl : Floats D) where
  -- `correct * 10.0 / total`, with the number of answers as the total where no answer was graded.
  unfoldable pub grade : ℕ → ℕ → Db D → Grade D
  grade exam_id sent db =
      let rows = graded_rows exam_id db.questions db.answers in
      let total = if length rows == 0 then sent else length rows in
      record {
        correct = count_correct rows;
        total = total;
        score =
            if ltb 0 total
            then fl.div (fl.mul (fl.of_int (count_correct rows)) (fl.of_int 10)) (fl.of_int total)
            else fl.of_int 0;
      }

  -- `UPDATE exams SET … WHERE id = ? AND submitted_at IS NULL`, after `count` answers were saved.
  unfoldable pub close_exam : ℕ → ℕ → Grade D → Action (Db D) (Unit {0})
  close_exam exam_id count g = do
    done env update_submitted 0
    changes ← gets (λ db. any (λ e. has_exam_id exam_id e && is_open e) db.exams)
    refuse_if (not changes) "Exam already submitted or not found"
    modify λ db. record db {
      exams =
          update (λ e. has_exam_id exam_id e && is_open e) (submit_row (env.clock count) g)
            db.exams;
    }

  unfoldable pub submit_exam : ℕ → List (ℕ × String) → Action (Db D) (Grade D)
  submit_exam exam_id answers = do
    refuse_if (not env.opens) ""
    prepare env select_submitted_at
    exam ← or_fail (← gets (λ db. first (has_exam_id exam_id) db.exams)) "Exam not found"
    refuse_if (not (is_open exam)) "Exam already submitted"
    submit_answers env exam_id answers
    prepare env select_graded
    g ← gets (grade exam_id (length answers))
    prepare env update_submitted
    close_exam exam_id (length answers) g
    pure g

  -- `correct / total * 10.0`, with the total of the exam's row where no answer was graded.
  unfoldable pub expired_grade : ℕ → Db D → Grade D
  expired_grade exam_id db =
      let rows = graded_rows exam_id db.questions db.answers in
      let stored =
        if prepares env select_total
        then elim (first (has_exam_id exam_id) db.exams) [ none ↦ 0 | some e ↦ e.total_questions ]
        else 0 in
      let total = if length rows == 0 then stored else length rows in
      record {
        correct = count_correct rows;
        total = total;
        score =
            if ltb 0 total
            then fl.mul (fl.div (fl.of_int (count_correct rows)) (fl.of_int total)) (fl.of_int 10)
            else fl.of_int 0;
      }

  -- One round of the loop, with the number submitted so far. A statement that cannot be prepared
  -- skips the exam.
  unfoldable pub submit_expired : ℕ → ℕ → ℕ × Db D → ℕ × Db D
  submit_expired i exam_id (n, db) =
      let open_exam = λ (e : ExamRow D). has_exam_id exam_id e && is_open e in
      if ((prepares env select_graded && prepares env update_expired) && steps env update_expired i)
        && any open_exam db.exams
      then (
        suc n,
        record db {
          exams = update open_exam (submit_row (env.clock 0) (expired_grade exam_id db)) db.exams;
        },
      )
      else (n, db)

  unfoldable pub submit_all : ℕ → List ℕ → ℕ × Db D → ℕ × Db D
  submit_all i [] s = s
  submit_all i (eid ∷ eids) s = submit_all (suc i) eids (submit_expired i eid s)

  -- `WHERE end_at < ? AND submitted_at IS NULL`
  abbrev pub is_expired : ExamRow D → Bool
  is_expired e = ltb e.end_at (env.clock 0) && is_open e

  unfoldable pub auto_submit_expired_exams : Action (Db D) ℕ
  auto_submit_expired_exams = do
    opened env
    prepare env select_expired
    expired_exam_ids ← gets (λ db. map (λ e. e.id) (select is_expired db.exams))
    λ db. let (n, db') = submit_all 0 expired_exam_ids (0, db) in (ok n, db')

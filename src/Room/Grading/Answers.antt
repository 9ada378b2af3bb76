-- ===== src/Room/Grading/Answers.antt =====
-- server/src/room.cpp: what the table `answers` holds after submit_answers, and the bounds of a
-- grade.
use network_final_project.Base.{
  ℕ, suc, ◌≤◌, ◌≡◌, refl, String, false, List, [], ◌∷◌, arith, ◌==◌, length, ap, sym, ◌∙◌,
}
use network_final_project.Base.Action.{ok}
use network_final_project.Db.{Db, Floats}
use network_final_project.Db.Env.{Env}
use network_final_project.Room.Grading.Upsert.{
  answered, stored, IsUnique, upsert-stored, upsert-IsUnique,
}
use network_final_project.Room.Grading.{
  new_answer, upsert, save_answers, submit_answers, graded_rows, count_correct, grade,
  expired_grade,
}

module _ {D : Type 0} (env : Env) (eid : ℕ) where
  save_answers-IsUnique :
      (i : ℕ) (answers : List (ℕ × String)) (db : Db D)
      → IsUnique db.answers
      → IsUnique (save_answers env eid i answers db).1.answers
  unfolding save_answers
  save_answers-IsUnique i [] db v = v
  save_answers-IsUnique i (a ∷ rest) db v =
      let rows = upsert (new_answer env eid i a) db.answers in
      ground (
        arith,
        upsert-IsUnique (new_answer env eid i a) db.answers v,
        save_answers-IsUnique (suc i) rest (record db { answers = rows }),
      )

  save_answers-stored :
      (i : ℕ) (answers : List (ℕ × String)) (db db' : Db D) (qid : ℕ)
      → save_answers env eid i answers db ≡ (ok tt, db')
      → stored eid qid db'.answers ≡ answered (stored eid qid db.answers) qid answers
  unfolding save_answers
  save_answers-stored i [] db db' qid h = ground arith
  save_answers-stored i (a ∷ rest) db db' qid h =
      let rows = upsert (new_answer env eid i a) db.answers in
      ground (
        arith,
        upsert-stored (new_answer env eid i a) eid qid db.answers,
        save_answers-stored (suc i) rest (record db { answers = rows }) db' qid,
      )

  save_answers-stored_other :
      (i : ℕ) (answers : List (ℕ × String)) (db : Db D) (other qid : ℕ)
      → (eid == other) ≡ false
      → stored other qid (save_answers env eid i answers db).1.answers ≡ stored other qid db.answers
  unfolding save_answers
  save_answers-stored_other i [] db other qid ne = refl
  save_answers-stored_other i (a ∷ rest) db other qid ne =
      let rows = upsert (new_answer env eid i a) db.answers in
      ground (
        arith,
        upsert-stored (new_answer env eid i a) other qid db.answers,
        save_answers-stored_other (suc i) rest (record db { answers = rows }) other qid ne,
      )

  -- In a table with no two rows for a question of an exam, none gets a second row by
  -- submit_answers, whether it succeeds or fails.
  pub submit_answers-IsUnique :
      (answers : List (ℕ × String)) (db : Db D)
      → IsUnique db.answers
      → IsUnique (submit_answers env eid answers db).1.answers
  unfolding submit_answers
  submit_answers-IsUnique answers db v = ground (arith, save_answers-IsUnique 0 answers db v)

  submit_answers-save_answers :
      (answers : List (ℕ × String)) (db db' : Db D)
      → submit_answers env eid answers db ≡ (ok tt, db')
      → save_answers env eid 0 answers db ≡ (ok tt, db')
  unfolding submit_answers
  submit_answers-save_answers answers db db' h = ground arith

  -- After a call that succeeds, each question of the exam has the last option that was sent for it, up
  -- to the option's first NUL, or the one that it had; another exam keeps its answers.
  pub submit_answers_lem :
      (answers : List (ℕ × String)) (db db' : Db D) (other qid : ℕ)
      → submit_answers env eid answers db ≡ (ok tt, db')
      → (eid == other) ≡ false
      → (stored eid qid db'.answers ≡ answered (stored eid qid db.answers) qid answers)
        × (stored other qid db'.answers ≡ stored other qid db.answers)
  submit_answers_lem answers db db' other qid good ne =
      let saved = submit_answers-save_answers answers db db' good in
      (
        save_answers-stored 0 answers db db' qid saved,
        ap (λ r. stored other qid r.1.answers) (sym saved)
            ∙ save_answers-stored_other 0 answers db other qid ne,
      )

module _ {D : Type 0} (env : Env) where
  save_answers-exams :
      (x i : ℕ) (answers : List (ℕ × String)) (db : Db D)
      → (save_answers env x i answers db).1.exams ≡ db.exams
  unfolding save_answers
  save_answers-exams x i [] db = refl
  save_answers-exams x i (a ∷ rest) db = ground (
    arith,
    save_answers-exams x (suc i) rest
        (record db { answers = upsert (new_answer env x i a) db.answers }),
  )

  pub submit_answers-exams :
      (x : ℕ) (answers : List (ℕ × String)) (db : Db D)
      → (submit_answers env x answers db).1.exams ≡ db.exams
  unfolding submit_answers
  submit_answers-exams x answers db = ground (arith, save_answers-exams x 0 answers db)

count_correct-le : (rows : List (String × String)) → count_correct rows ≤ length rows
unfolding count_correct
count_correct-le [] = omega arith
count_correct-le (r ∷ rows) = ground (arith, count_correct-le rows)

-- A grade counts no more right answers than it counts answers, by submission and by expiry.
pub grade_bounds :
    {D : Type 0} (env : Env) (fl : Floats D) (eid sent : ℕ) (db : Db D)
    → ((grade env fl eid sent db).correct ≤ (grade env fl eid sent db).total)
      × ((expired_grade env fl eid db).correct ≤ (expired_grade env fl eid db).total)
unfolding grade expired_grade
grade_bounds env fl eid sent db =
    let rows = graded_rows eid db.questions db.answers in
    (ground (arith, count_correct-le rows), ground (arith, count_correct-le rows))

-- ===== src/Room/Calls/Results.antt =====
-- server/src/room.cpp: the result of an exam that was submitted, over any history of calls.
use network_final_project.Base.{
  ℕ, suc, ◌≡◌, refl, ◌∙◌, sym, ap, inl, inr, String, false, List, [], ◌∷◌, ◌++◌, Option, none, some,
  arith, first, update, ◌&&◌, length, map, select, Option-cases,
}
use network_final_project.Base.Action.{Action, Result-cases}
use network_final_project.Base.Rows.{first-update, first-append_some}
use network_final_project.Db.{Db, Floats, ExamRow, PaperQuestion}
use network_final_project.Db.Env.{Env}
use network_final_project.Auth.{add_u64}
use network_final_project.Room.{RoomSettings, find_room, to_u64}
use network_final_project.Room.Lifecycle.{
  create_room, join_room, start_room, delete_room, finish_room,
}
use network_final_project.Room.Questions.{pick_questions}
use network_final_project.Room.Paper.{
  has_exam_id, save_from, save_exam_questions, draw_paper, in_transaction, ensure_exam,
  insert_exam_row, set_total, new_exam, get_exam_paper, paper_settings,
}
use network_final_project.Room.Grading.{
  is_open, submit_row, Grade, submit_answers, submit_exam, close_exam, grade, submit_expired,
  submit_all, auto_submit_expired_exams, is_expired, expired_grade,
}
use network_final_project.Room.Grading.Answers.{submit_answers-exams}
use network_final_project.Room.Practice.{start_practice, submit_practice}
use network_final_project.Room.Calls.{
  Call, creates, joins, starts, deletes, finishes, takes_paper, saves, submits, practises,
  submits_practice, expires, step, run,
}

-- What submit_exam and auto_submit_expired_exams write into an exam, but for the total.
pub record Outcome (D : Type 0) : Type 0 where
  pub submitted_at : Option ℕ
  pub score : Option D
  pub correct_count : Option ℕ

abbrev pub outcome : {D : Type 0} → Option (ExamRow D) → Option (Outcome D)
outcome none = none
outcome (some e) =
    some
      (record { submitted_at = e.submitted_at; score = e.score; correct_count = e.correct_count })

module _ {D : Type 0} (eid : ℕ) where
  abbrev pub outcome_in : List (ExamRow D) → Option (Outcome D)
  outcome_in exams = outcome (first (has_exam_id eid) exams)

module _ {D : Type 0} (eid : ℕ) (e : ExamRow D) where
  -- The exam is in the table and was submitted.
  abbrev pub IsClosed : List (ExamRow D) → Type 0
  IsClosed exams = (first (has_exam_id eid) exams ≡ some e) × (is_open e ≡ false)

module _ {D : Type 0} (env : Env) where
  save_from-exams :
      (x i : ℕ) (qs : List PaperQuestion) (db : Db D) → (save_from env x i qs db).1.exams ≡ db.exams
  unfolding save_from
  save_from-exams x i [] db = refl
  save_from-exams x i (q ∷ qs) db = ground (
    arith,
    save_from-exams x (suc i) qs (record db {
      exam_questions =
          db.exam_questions
          ++ record { exam_id = x; question_id = q.question_id; question_order = suc i } ∷ [];
    }),
  )

module _ {D : Type 0} (env : Env) (eid : ℕ) where
  -- A closed exam stays closed with the same outcome where the outcomes agree.
  set_total-outcome :
      (x n : ℕ) (db : Db D) → outcome_in eid (set_total env x n db).exams ≡ outcome_in eid db.exams
  unfolding set_total
  set_total-outcome x n db = ground (
    arith,
    first-update (has_exam_id eid) (has_exam_id x)
        (λ (e : ExamRow D). record e { total_questions = n }) db.exams (λ e. refl),
  )

  draw_paper-outcome :
      (x : ℕ) (settings : RoomSettings) (db : Db D)
      → outcome_in eid (draw_paper env x settings db).1.exams ≡ outcome_in eid db.exams
  unfolding draw_paper save_exam_questions
  draw_paper-outcome x settings db =
      let qs = pick_questions env settings db in
      ground (
        arith,
        save_from-exams env x 0 qs db,
        set_total-outcome x (length qs) (save_exam_questions env x qs db).1,
      )

  in_transaction-outcome :
      {A : Type 0} (body : Action (Db D) A) (db : Db D)
      → outcome_in eid (body db).1.exams ≡ outcome_in eid db.exams
      → outcome_in eid (in_transaction env body db).1.exams ≡ outcome_in eid db.exams
  unfolding in_transaction
  in_transaction-outcome body db h = ground arith

  ensure_exam-first :
      (rid uid start end_time : ℕ) (db : Db D) (e : ExamRow D)
      → first (has_exam_id eid) db.exams ≡ some e
      → first (has_exam_id eid) (ensure_exam env rid uid start end_time db).1.exams ≡ some e
  unfolding ensure_exam insert_exam_row
  ensure_exam-first rid uid start end_time db e h = ground (
    arith,
    first-append_some (has_exam_id eid) db.exams (new_exam db.next_exam rid uid start end_time ∷ [])
        e h,
  )

  get_exam_paper-outcome :
      (rid uid : ℕ) (db : Db D) (e : ExamRow D)
      → first (has_exam_id eid) db.exams ≡ some e
      → outcome_in eid (get_exam_paper env rid uid db).1.exams ≡ outcome (some e)
  unfolding get_exam_paper
  get_exam_paper-outcome rid uid db e h = elim (Option-cases (find_room rid db)) [
    | inl missing ↦ ground arith
    | inr (room, found) ↦
        let start = env.clock 0 in
        let end_time = add_u64 start (to_u64 room.duration_sec) in
        let (r, db') = ensure_exam env rid uid start end_time db in
        let settings = paper_settings room in
        let kept = ensure_exam-first rid uid start end_time db e h in
        elim (Result-cases r) [
          | inl (error, failed) ↦ ground (arith, kept)
          | inr (x, made) ↦ ground (
            arith,
            kept,
            in_transaction-outcome (draw_paper env x settings) db'
                (draw_paper-outcome x settings db'),
          )
        ]
  ]

module _ {D : Type 0} (env : Env) (fl : Floats D) (eid : ℕ) (e : ExamRow D) where
  -- The UPDATE of a submission leaves a closed exam alone.
  submit_row-closed :
      (x now : ℕ) (g : Grade D) (exams : List (ExamRow D))
      → IsClosed eid e exams
      → first
          (has_exam_id eid)
          (update (λ e. has_exam_id x e && is_open e) (submit_row now g) exams)
        ≡ some e
  submit_row-closed x now g exams v = ground (
    arith,
    first-update (has_exam_id eid) (λ (e : ExamRow D). has_exam_id x e && is_open e)
        (submit_row now g) exams (λ e. refl),
  )

  submit_exam-closed :
      (x : ℕ) (answers : List (ℕ × String)) (db : Db D)
      → IsClosed eid e db.exams
      → first (has_exam_id eid) (submit_exam env fl x answers db).1.exams ≡ some e
  unfolding submit_exam close_exam
  submit_exam-closed x answers db v =
      let db' = (submit_answers env x answers db).1 in
      ground (
        arith,
        submit_answers-exams env x answers db,
        submit_row-closed x (env.clock (length answers)) (grade env fl x (length answers) db')
            db.exams v,
      )

  submit_expired-closed :
      (i x n : ℕ) (db : Db D)
      → IsClosed eid e db.exams
      → first (has_exam_id eid) (submit_expired env fl i x (n, db)).1.exams ≡ some e
  unfolding submit_expired
  submit_expired-closed i x n db v =
      ground (arith, submit_row-closed x (env.clock 0) (expired_grade env fl x db) db.exams v)

  submit_all-closed :
      (i : ℕ) (xs : List ℕ) (n : ℕ) (db : Db D)
      → IsClosed eid e db.exams
      → first (has_exam_id eid) (submit_all env fl i xs (n, db)).1.exams ≡ some e
  unfolding submit_all
  submit_all-closed i [] n db v = v.0
  submit_all-closed i (x ∷ xs) n db v =
      let (n', db') = submit_expired env fl i x (n, db) in
      submit_all-closed (suc i) xs n' db' (submit_expired-closed i x n db v, v.1)

  auto_submit_expired_exams-closed :
      (db : Db D)
      → IsClosed eid e db.exams
      → first (has_exam_id eid) (auto_submit_expired_exams env fl db).1.exams ≡ some e
  unfolding auto_submit_expired_exams
  auto_submit_expired_exams-closed db v =
      ground
        (arith, submit_all-closed 0 (map (λ e. e.id) (select (is_expired env fl) db.exams)) 0 db v)

  -- One call.
  step-outcome :
      (c : Call) (db : Db D)
      → IsClosed eid e db.exams
      → outcome_in eid (step fl env c db).exams ≡ outcome (some e)
  unfolding step
  step-outcome (creates uid name description pass settings) db v =
      unfold create_room in ground arith
  step-outcome (joins rid uid pass) db v = unfold join_room in ground arith
  step-outcome (starts rid uid) db v = unfold start_room in ground arith
  step-outcome (deletes rid uid) db v = unfold delete_room in ground arith
  step-outcome (finishes rid uid) db v = unfold finish_room in ground arith
  step-outcome (takes_paper rid uid) db v = get_exam_paper-outcome env eid rid uid db e v.0
  step-outcome (saves x answers) db v = ground (arith, submit_answers-exams env x answers db)
  step-outcome (submits x answers) db v = ap outcome (submit_exam-closed x answers db v)
  step-outcome (practises uid count duration difficulties topics) db v =
      unfold start_practice in ground arith
  step-outcome (submits_practice pid uid answers) db v = unfold submit_practice in ground arith
  step-outcome expires db v = ap outcome (auto_submit_expired_exams-closed db v)

module _ {D : Type 0} (fl : Floats D) (eid : ℕ) where
  -- Once the exam with an id was submitted, no history of calls changes its score, its number of
  -- right answers or the time of its submission.
  pub run-outcome :
      (h : List (Env × Call)) (db : Db D) (e : ExamRow D)
      → first (has_exam_id eid) db.exams ≡ some e
      → is_open e ≡ false
      → outcome_in eid (run fl h db).exams ≡ outcome (some e)
  unfolding run
  run-outcome [] db e found closed = ap outcome found
  run-outcome ((env, c) ∷ h) db e found closed =
      let same = step-outcome env fl eid e c db (found, closed) in
      elim (Option-cases (first (has_exam_id eid) (step fl env c db).exams)) [
        | inl gone ↦ ground (arith, same)
        | inr (e', kept) ↦
            let agree : outcome (some e') ≡ outcome (some e) = sym (ap outcome kept) ∙ same in
            run-outcome h (step fl env c db) e' kept (ground (arith, agree)) ∙ agree
      ]

-- ===== src/Room/Grading/Expiry.antt =====
-- server/src/room.cpp: what auto_submit_expired_exams leaves open, and submit_exam called twice.
use network_final_project.Base.{
  ℕ, suc, ◌≡◌, refl, inl, inr, String, Bool, true, false, not, List, [], ◌∷◌, some, arith, first,
  any, update, select, map, ◌==◌, ◌&&◌, length, Option-cases,
}
use network_final_project.Base.Action.{ok, err}
use network_final_project.Base.Rows.{first-update, first_holds}
use network_final_project.Db.{Db, Floats, ExamRow}
use network_final_project.Db.Env.{
  Env, IsUp, select_graded, update_expired, select_expired, select_submitted_at,
}
use network_final_project.Room.Grading.Answers.{submit_answers-exams}
use network_final_project.Room.Paper.{has_exam_id}
use network_final_project.Room.Grading.{
  is_open, is_expired, submit_row, Grade, grade, expired_grade, submit_answers, submit_exam,
  close_exam, submit_expired, submit_all, auto_submit_expired_exams,
}

abbrev member : ℕ → List ℕ → Bool
member k ks = any (λ x. x == k) ks

module _ {D : Type 0} (env : Env) (fl : Floats D) where
  -- Whether an exam has run out that is not in the list.
  abbrev missed : List ℕ → List (ExamRow D) → Bool
  missed ids exams = any (λ (e : ExamRow D). is_expired env fl e && not (member e.id ids)) exams

  missed_more :
      (x : ℕ) (ids : List ℕ) (exams : List (ExamRow D))
      → missed ids exams ≡ false
      → missed (x ∷ ids) exams ≡ false
  missed_more x ids [] h = refl
  missed_more x ids (e ∷ exams) h = ground (arith, missed_more x ids exams)

  missed_none :
      (exams : List (ExamRow D))
      → missed (map (λ e. e.id) (select (is_expired env fl) exams)) exams ≡ false
  missed_none [] = refl
  missed_none (e ∷ exams) =
      let ids = map (λ (e : ExamRow D). e.id) (select (is_expired env fl) exams) in
      ground (arith, missed_none exams, missed_more e.id ids exams)

  missed-update :
      (x : ℕ) (ids : List ℕ) (g : Grade D) (exams : List (ExamRow D))
      → missed (x ∷ ids) exams ≡ false
      → missed ids (update (λ e. has_exam_id x e && is_open e) (submit_row (env.clock 0) g) exams)
        ≡ false
  missed-update x ids g [] h = refl
  missed-update x ids g (e ∷ exams) h = ground (arith, missed-update x ids g exams)

  missed_skip :
      (x : ℕ) (ids : List ℕ) (exams : List (ExamRow D))
      → missed (x ∷ ids) exams ≡ false
      → any (λ e. has_exam_id x e && is_open e) exams ≡ false
      → missed ids exams ≡ false
  missed_skip x ids [] h k = refl
  missed_skip x ids (e ∷ exams) h k = ground (arith, missed_skip x ids exams)

  submit_expired-missed :
      (i x n : ℕ) (ids : List ℕ) (db : Db D)
      → IsUp env
      → missed (x ∷ ids) db.exams ≡ false
      → missed ids (submit_expired env fl i x (n, db)).1.exams ≡ false
  unfolding submit_expired
  submit_expired-missed i x n ids db up h = ground (
    arith,
    up.prepared select_graded,
    up.prepared update_expired,
    up.stepped update_expired i,
    missed-update x ids (expired_grade env fl x db) db.exams h,
    missed_skip x ids db.exams h,
  )

  submit_all-missed :
      (i : ℕ) (ids : List ℕ) (n : ℕ) (db : Db D)
      → IsUp env
      → missed ids db.exams ≡ false
      → missed [] (submit_all env fl i ids (n, db)).1.exams ≡ false
  unfolding submit_all
  submit_all-missed i [] n db up h = h
  submit_all-missed i (x ∷ ids) n db up h =
      let (n', db') = submit_expired env fl i x (n, db) in
      submit_all-missed (suc i) ids n' db' up (submit_expired-missed i x n ids db up h)

  missed_nothing :
      (exams : List (ExamRow D)) → missed [] exams ≡ false → any (is_expired env fl) exams ≡ false
  missed_nothing [] h = refl
  missed_nothing (e ∷ exams) h = ground (arith, missed_nothing exams)

  -- When SQLite accepts the calls, no exam is left that has run out and was not submitted.
  pub auto_submit_expired_exams_lem :
      (db : Db D)
      → IsUp env
      → any (is_expired env fl) (auto_submit_expired_exams env fl db).1.exams ≡ false
  unfolding auto_submit_expired_exams
  auto_submit_expired_exams_lem db up =
      let ids = map (λ (e : ExamRow D). e.id) (select (is_expired env fl) db.exams) in
      ground (
        arith,
        up.prepared select_expired,
        missed_nothing (submit_all env fl 0 ids (0, db)).1.exams,
        submit_all-missed 0 ids 0 db up (missed_none db.exams),
      )

module _ {D : Type 0} (fl : Floats D) (env env' : Env) (eid : ℕ) where
  close_exam-closes :
      (count : ℕ) (g : Grade D) (db db' : Db D) (e : ExamRow D)
      → close_exam env fl eid count g db ≡ (ok tt, db')
      → first (has_exam_id eid) db.exams ≡ some e
      → is_open e ≡ true
      → first (has_exam_id eid) db'.exams ≡ some (submit_row (env.clock count) g e)
  unfolding close_exam
  close_exam-closes count g db db' e h found opened_exam =
      let now = env.clock count in
      ground (
        arith,
        first_holds (has_exam_id eid) db.exams e found,
        first-update (has_exam_id eid) (λ (e : ExamRow D). has_exam_id eid e && is_open e)
            (submit_row now g) db.exams (λ e. refl),
      )

  submit_exam-eq-ok :
      (answers : List (ℕ × String)) (db db' : Db D) (g : Grade D)
      → submit_exam env fl eid answers db ≡ (ok g, db')
      → (e : ExamRow D) × (first (has_exam_id eid) db.exams ≡ some e)
        × (is_open e ≡ true)
        × (first (has_exam_id eid) db'.exams ≡ some (submit_row (env.clock (length answers)) g e))
  unfolding submit_exam
  submit_exam-eq-ok answers db db' g h = elim (Option-cases (first (has_exam_id eid) db.exams)) [
    | inl missing ↦ absurd (ground arith)
    | inr (e, found) ↦
        let saved = (submit_answers env eid answers db).1 in
        (
          e,
          found,
          ground arith,
          ground (
            arith,
            submit_answers-exams env eid answers db,
            close_exam-closes (length answers) (grade env fl eid (length answers) saved) saved db'
                e,
          ),
        )
  ]

  -- A submission that succeeds is the last one: the row of the exam has the grade that was
  -- returned, and every later submission, when SQLite accepts the calls, is refused and changes
  -- nothing.
  pub submit_exam_once :
      (answers later : List (ℕ × String)) (db db' : Db D) (g : Grade D)
      → IsUp env'
      → submit_exam env fl eid answers db ≡ (ok g, db')
      → ((e : ExamRow D) × (first (has_exam_id eid) db'.exams ≡ some e)
          × (e.score ≡ some g.score)
          × (e.correct_count ≡ some g.correct)
          × (e.total_questions ≡ g.total))
        × (submit_exam env' fl eid later db' ≡ (err "Exam already submitted", db'))
  unfolding submit_exam
  submit_exam_once answers later db db' g up h =
      let (e, found, opened_exam, closed) = submit_exam-eq-ok answers db db' g h in
      (
        (submit_row (env.clock (length answers)) g e, closed, refl, refl, refl),
        ground (arith, closed, up.prepared select_submitted_at),
      )

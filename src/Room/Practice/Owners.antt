-- ===== src/Room/Practice/Owners.antt =====
-- server/src/room.cpp: whose practice run submit_practice grades, and how.
use network_final_project.Base.{
  ℕ, ◌≤◌, ◌≡◌, refl, String, false, List, [], ◌∷◌, some, arith, length, first, update, ◌==◌,
}
use network_final_project.Base.Action.{ok}
use network_final_project.Db.{Db, Floats, QuestionRow, PracticeRow}
use network_final_project.Db.Env.{Env}
use network_final_project.Room.Grading.{Grade}
use network_final_project.Room.Practice.{count_right, grade_practice, is_run_of, submit_practice}

count_right-length :
    (bank : List QuestionRow) (answers : List (ℕ × String))
    → count_right bank answers ≤ length answers
unfolding count_right
count_right-length bank [] = omega arith
count_right-length bank (a ∷ rest) = ground (arith, count_right-length bank rest)

module _ {D : Type 0} (env : Env) (fl : Floats D) where
  other_run :
      (pid uid p u : ℕ) (now : ℕ) (g : Grade D) (rows : List (PracticeRow D))
      → (u == uid) ≡ false
      → first (is_run_of env fl p u) (
          update
            (is_run_of env fl pid uid)
            (λ r. record r { correct_count = some g.correct; score = some g.score; end_at = now })
            rows)
        ≡ first (is_run_of env fl p u) rows
  other_run pid uid p u now g [] ne = refl
  other_run pid uid p u now g (r ∷ rows) ne = ground (arith, other_run pid uid p u now g rows ne)

  -- A submission that succeeds leaves the practice runs of the other users as they are.
  -- Its grade counts every answer that was sent, and no more right ones.
  pub submit_practice_lem :
      (pid uid p u : ℕ) (answers : List (ℕ × String)) (db db' : Db D) (g : Grade D)
      → (u == uid) ≡ false
      → submit_practice env fl pid uid answers db ≡ (ok g, db')
      → (first (is_run_of env fl p u) db'.practice_runs
          ≡ first (is_run_of env fl p u) db.practice_runs)
        × (g.total ≡ length answers)
        × (g.correct ≤ g.total)
  unfolding submit_practice grade_practice
  submit_practice_lem pid uid p u answers db db' g ne h = ground (
    arith,
    other_run pid uid p u (env.clock 0) (grade_practice env fl answers db) db.practice_runs ne,
    count_right-length db.questions answers,
  )

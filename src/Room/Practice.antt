-- ===== src/Room/Practice.antt =====
-- server/src/room.cpp: start_practice and submit_practice.
pub mod Owners
use network_final_project.Base.{
  ℕ, suc, ◌+◌, String, Bool, false, ◌&&◌, none, some, List, [], ◌∷◌, ◌++◌, ltb, ◌==◌, str_eq,
  if◌then◌else◌, length, first, update,
}
use network_final_project.Base.Int.{ℤ}
use network_final_project.Base.Action.{Action, pure, gets, ◌>>=◌, ◌>>◌, modify}
use network_final_project.Db.{Db, QuestionRow, PaperQuestion, PracticeRow, Floats}
use network_final_project.Db.Env.{
  Env, insert_practice, select_correct_option, update_practice, opened, prepare, done,
}
use network_final_project.Auth.{add_u64}
use network_final_project.Room.{to_u64}
use network_final_project.Room.Questions.{pick_questions_filtered}
use network_final_project.Room.Grading.{Grade}

pub record PracticePaper : Type 0 where
  pub practice_id : ℕ
  pub questions : List PaperQuestion
  pub start_time : ℕ
  pub end_time : ℕ

module _ {D : Type 0} (env : Env) where
  -- A paper with no question is stored and returned all the same.
  unfoldable pub start_practice :
      ℕ → ℤ → ℤ → List String → List String → Action (Db D) PracticePaper
  start_practice user_id question_count duration_sec difficulties topics = do
    opened env
    qs ← gets (pick_questions_filtered env question_count difficulties topics)
    let start = env.clock 0
    let end_time = add_u64 start (to_u64 duration_sec)
    prepare env insert_practice
    done env insert_practice 0
    pid ← gets (λ db. db.next_practice)
    modify λ db. record db {
      practice_runs =
          db.practice_runs
          ++ record {
            id = pid;
            user_id = user_id;
            start_at = start;
            end_at = end_time;
            score = none;
            correct_count = none;
            total_questions = length qs;
            settings = record {
              question_count = question_count;
              duration_sec = duration_sec;
              difficulties = difficulties;
              topics = topics;
            };
          }
            ∷ [];
      next_practice = suc pid;
    }
    pure (record { practice_id = pid; questions = qs; start_time = start; end_time = end_time })

-- Whether a row with the question's key has the selected option as its correct one.
unfoldable pub is_right : List QuestionRow → ℕ × String → Bool
is_right bank (question_id, selected) = elim (first (λ q. q.id == question_id) bank) [
  | none ↦ false
  | some q ↦ str_eq selected q.correct_option
]

unfoldable pub count_right : List QuestionRow → List (ℕ × String) → ℕ
unfolding is_right
count_right bank [] = 0
count_right bank (a ∷ rest) = (if is_right bank a then 1 else 0) + count_right bank rest

module _ {D : Type 0} (env : Env) (fl : Floats D) where
  unfoldable pub grade_practice : List (ℕ × String) → Db D → Grade D
  unfolding count_right
  grade_practice answers db = record {
    correct = count_right db.questions answers;
    total = length answers;
    score =
        if ltb 0 (length answers)
        then fl.div (fl.mul (fl.of_int (count_right db.questions answers)) (fl.of_int 10))
            (fl.of_int (length answers))
        else fl.of_int 0;
  }

  abbrev pub is_run_of : ℕ → ℕ → PracticeRow D → Bool
  is_run_of pid uid r = r.id == pid && r.user_id == uid

  -- The lookup statement is prepared once for each answer. An UPDATE that changes no row succeeds.
  unfoldable pub submit_practice : ℕ → ℕ → List (ℕ × String) → Action (Db D) (Grade D)
  unfolding grade_practice
  submit_practice practice_id user_id answers = do
    opened env
    if ltb 0 (length answers) then prepare env select_correct_option else pure tt
    g ← gets (grade_practice answers)
    prepare env update_practice
    done env update_practice 0
    modify λ db. record db {
      practice_runs =
          update (is_run_of practice_id user_id)
            (λ r. record r {
              correct_count = some g.correct;
              score = some g.score;
              end_at = env.clock 0;
            })
            db.practice_runs;
    }
    pure g

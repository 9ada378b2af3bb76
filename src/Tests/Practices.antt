-- ===== src/Tests/Practices.antt =====
-- A run of submit_practice of server/src/room.cpp.
use network_final_project.Base.{ℕ, ◌≤◌, ◌≡◌, refl, String, none, some, List, [], ◌∷◌, length, first}
use network_final_project.Base.Int.{pos}
use network_final_project.Base.Action.{ok}
use network_final_project.Db.{Db, PracticeRow}
use network_final_project.Room.Grading.{Grade}
use network_final_project.Room.Practice.{
  is_right, count_right, grade_practice, is_run_of, submit_practice,
}
use network_final_project.Room.Practice.Owners.{submit_practice_lem}
use network_final_project.Tests.{at_time, empty_db, whole_numbers}
use network_final_project.Tests.Rooms.{paris}

abbrev a_run : PracticeRow ℕ
a_run = record {
  id = 1;
  user_id = 2;
  start_at = 100;
  end_at = 400;
  score = none;
  correct_count = none;
  total_questions = 1;
  settings = record {
    question_count = pos 1;
    duration_sec = pos 300;
    difficulties = [];
    topics = [];
  };
}

abbrev other_run : PracticeRow ℕ
other_run = record a_run { id = 2; user_id = 3 }

abbrev runs_db : Db ℕ
runs_db = record empty_db {
  questions = paris ∷ [];
  practice_runs = a_run ∷ other_run ∷ [];
  next_practice = 3;
}

abbrev graded_run : PracticeRow ℕ
graded_run = record a_run { score = some 5; correct_count = some 1; end_at = 200 }

abbrev graded_runs_db : Db ℕ
graded_runs_db = record runs_db { practice_runs = graded_run ∷ other_run ∷ [] }

abbrev half_right : List (ℕ × String)
half_right = (1, "A") ∷ (7, "A") ∷ []

abbrev half_marks : Grade ℕ
half_marks = record { correct = 1; total = 2; score = 5 }

practice_submitted :
    submit_practice (at_time 200) whole_numbers 1 2 half_right runs_db
    ≡ (ok half_marks, graded_runs_db)
unfolding submit_practice grade_practice count_right is_right
practice_submitted = refl

submit_practice_example :
    (first (is_run_of (at_time 200) whole_numbers 2 3) graded_runs_db.practice_runs
      ≡ first (is_run_of (at_time 200) whole_numbers 2 3) runs_db.practice_runs)
    × (half_marks.total ≡ length half_right)
    × (half_marks.correct ≤ half_marks.total)
submit_practice_example =
    submit_practice_lem (at_time 200) whole_numbers 1 2 2 3 half_right runs_db graded_runs_db
      half_marks refl practice_submitted

-- ===== src/Tests/Rooms.antt =====
-- Runs of the calls of server/src/room.cpp on a database with a room.
use network_final_project.Base.{ℕ, ◌≤◌, ◌≡◌, ◌⊎◌, refl, none, some, List, [], ◌∷◌, arith}
use network_final_project.Base.Int.{pos}
use network_final_project.Db.{Db, RoomRow, waiting, ExamRow, QuestionRow}
use network_final_project.Db.Env.{Env}
use network_final_project.Room.{find_room}
use network_final_project.Room.Calls.{Call, starts, submits, finishes, expires, deletes, step, run}
use network_final_project.Room.Calls.Status.{rank, Fate, step-Fate}
use network_final_project.Room.Calls.History.{IsSpent, run-rank}
use network_final_project.Room.Calls.Results.{outcome, outcome_in, run-outcome}
use network_final_project.Tests.{at_time, empty_db, whole_numbers}

abbrev pub lobby : RoomRow
lobby = record {
  id = 1;
  code = "R1";
  name = "Quiz";
  description = "";
  duration_sec = pos 600;
  total_questions = pos 2;
  easy_count = pos 2;
  medium_count = pos 0;
  hard_count = pos 0;
  status = waiting;
  room_pass = "";
  creator_id = 9;
  started_at = none;
  created_at = 100;
}

abbrev pub paris : QuestionRow
paris = record {
  id = 1;
  text = "Capital of France?";
  options_json = "[]";
  correct_option = "A";
  difficulty = "EASY";
  topic = "geography";
}

abbrev pub open_exam : ExamRow ℕ
open_exam = record {
  id = 1;
  room_id = 1;
  user_id = 2;
  start_at = 100;
  end_at = 700;
  submitted_at = none;
  score = none;
  correct_count = none;
  total_questions = 2;
}

abbrev pub closed_exam : ExamRow ℕ
closed_exam = record open_exam { submitted_at = some 200; score = some 5; correct_count = some 1 }

abbrev pub room_db : Db ℕ
room_db = record empty_db {
  rooms = lobby ∷ [];
  next_room = 2;
  questions = paris ∷ [];
  exams = open_exam ∷ [];
  next_exam = 2;
}

abbrev closed_db : Db ℕ
closed_db = record room_db { exams = closed_exam ∷ [] }

step-Fate_example :
    Fate
      (at_time 100)
      (starts 1 9)
      lobby
      (find_room 1 (step whole_numbers (at_time 100) (starts 1 9) room_db))
step-Fate_example = step-Fate whole_numbers (at_time 100) 1 room_db lobby refl (starts 1 9)

abbrev a_history : List (Env × Call)
a_history =
    (at_time 100, starts 1 9)
    ∷ (at_time 110, deletes 1 9)
    ∷ (at_time 120, finishes 1 9)
    ∷ (at_time 130, submits 1 [])
    ∷ []

run-rank_example :
    IsSpent 1
      (run whole_numbers a_history room_db).next_room
      (run whole_numbers a_history room_db).rooms
    ⊎ ((r' : RoomRow) × (find_room 1 (run whole_numbers a_history room_db) ≡ some r')
        × (rank waiting ≤ rank r'.status)
        × (r'.id ≡ 1)
        × (r'.creator_id ≡ 9))
run-rank_example = run-rank whole_numbers a_history room_db 1 lobby (omega arith, tt) refl

abbrev late_calls : List (Env × Call)
late_calls = (at_time 800, submits 1 ((1, "A") ∷ [])) ∷ (at_time 900, expires) ∷ []

run-outcome_example :
    outcome_in 1 (run whole_numbers late_calls closed_db).exams ≡ outcome (some closed_exam)
run-outcome_example = run-outcome whole_numbers 1 late_calls closed_db closed_exam refl refl

-- ===== src/Tests/Seeds.antt =====
-- Runs of scripts/seed.cpp and scripts/echo_client.cpp.
use network_final_project.Base.{
  ℕ, String, ◌+◌, ◌≡◌, refl, none, some, true, false, [], ◌∷◌, arith, length, str_eq, if◌then◌else◌,
}
use network_final_project.Base.Int.{pos}
use network_final_project.Base.Action.{ok}
use network_final_project.Db.{Db, RoomRow, PaperQuestion, in_progress, ready}
use network_final_project.Auth.{login}
use network_final_project.Room.Lifecycle.{is_participant}
use network_final_project.Room.Questions.{
  paper_question, fetch, fetch_levels, fill_missing, trim, pick_questions,
}
use network_final_project.Room.Paper.{
  ExamPaper, join_questions, load_exam_questions, paper_settings, save_from, save_exam_questions,
  insert_exam_row, ensure_exam, set_total, draw_paper, in_transaction, get_exam_paper,
}
use network_final_project.Scripts.Seed.Questions.{bank}
use network_final_project.Scripts.Seed.{
  SeedEnv, seed, seed_main, transaction, fill, seed_questions, seed_users, users, teacher, student1,
  student2, insert_users, insert_or_ignore, insert_questions, insert_question,
}
use network_final_project.Scripts.Seed.Rows.{IsUp}
use network_final_project.Scripts.Seed.Again.{seed_twice}
use network_final_project.Scripts.Seed.Accounts.{session_of, login-seed}
use network_final_project.Scripts.Seed.Papers.{get_exam_paper-seed}
use network_final_project.Tests.{at_time, at_time-IsUp, empty_db}
use network_final_project.Tests.Rooms.{lobby}

abbrev seeding : SeedEnv
seeding = record {
  removes = none;
  makes_directory = none;
  opens = none;
  reads_schema = none;
  schema = none;
  begin_immediate = none;
  prepare_users = none;
  prepare_questions = none;
  commit = none;
  counts_users = true;
  counts_questions = true;
  steps_user = λ n. true;
  steps_question = λ n. true;
  now = 50;
  hash = λ s. if str_eq s "quiz_saltsecret" then 42 else 7;
  options_text = λ options. "{}";
}

seeding-IsUp : IsUp seeding
seeding-IsUp = record {
  removes_up = refl;
  makes_directory_up = refl;
  opens_up = refl;
  reads_schema_up = refl;
  schema_up = refl;
  begin_immediate_up = refl;
  prepare_users_up = refl;
  prepare_questions_up = refl;
  commit_up = refl;
  counts_users_up = refl;
  counts_questions_up = refl;
  steps_user_up = λ n. refl;
  steps_question_up = λ n. refl;
}

seed_twice_example :
    let seeded = (seed_main seeding true empty_db).1 in
    seed_main seeding false seeded ≡ (ok tt, seeded)
seed_twice_example = seed_twice seeding seeding seeding-IsUp seeding-IsUp true empty_db

login-seed_example :
    let seeded = (seed seeding empty_db).1 in
    ((login (at_time 100) "teacher" "teacher123" 60 seeded).0
      ≡ ok (session_of (at_time 100) 60 1 "teacher" "ADMIN"))
    × ((login (at_time 100) "student1" "student123" 60 seeded).0
        ≡ ok (session_of (at_time 100) 60 2 "student1" "STUDENT"))
    × ((login (at_time 100) "student2" "student123" 60 seeded).0
        ≡ ok (session_of (at_time 100) 60 3 "student2" "STUDENT"))
login-seed_example =
    login-seed seeding seeding-IsUp (at_time 100) (at_time-IsUp 100) refl 60 empty_db refl refl

abbrev seeded_room : RoomRow
seeded_room = record lobby {
  status = in_progress;
  started_at = some 100;
  total_questions = pos 3;
  easy_count = pos 1;
  medium_count = pos 1;
  hard_count = pos 1;
}

abbrev exam_db : Db ℕ
exam_db = record empty_db {
  questions = (seed seeding empty_db).1.questions;
  rooms = seeded_room ∷ [];
  participants = record { room_id = 1; user_id = 2; status = ready; joined_at = 90 } ∷ [];
}

abbrev a_question : ℕ → String → String → String → PaperQuestion
a_question qid text topic difficulty = record {
  question_id = qid;
  question_text = text;
  options = "{}";
  topic = topic;
  difficulty = difficulty;
}

abbrev three_questions : ExamPaper
three_questions = record {
  exam_id = 1;
  room_id = 1;
  questions =
      a_question 1 "What is TCP used for?" "Networking" "EASY"
      ∷ a_question 3 "What is a SYN flood?" "Security" "MEDIUM"
      ∷ a_question 5 "Which algorithm is used in TLS for key exchange (commonly)?" "Security" "HARD"
      ∷ [];
  start_time = 120;
  end_time = 720;
}

three_drawn :
    get_exam_paper (at_time 120) 1 2 exam_db
    ≡ (ok three_questions, (get_exam_paper (at_time 120) 1 2 exam_db).1)
unfolding get_exam_paper is_participant ensure_exam insert_exam_row in_transaction draw_paper
    load_exam_questions join_questions paper_settings pick_questions fetch fetch_levels fill_missing
    trim paper_question save_exam_questions save_from set_total seed transaction fill seed_questions
    seed_users users teacher student1 student2 insert_users insert_or_ignore insert_questions
    insert_question bank
three_drawn = refl

get_exam_paper-seed_example : length three_questions.questions ≡ 1 + 1 + 1
get_exam_paper-seed_example =
    get_exam_paper-seed seeding seeding-IsUp (at_time 120) (λ n qs. refl) refl 1 1 1 1 2 seeded_room
      three_questions empty_db exam_db (get_exam_paper (at_time 120) 1 2 exam_db).1 refl refl refl
      refl refl refl refl (omega arith) (omega arith) (omega arith) (omega arith) three_drawn

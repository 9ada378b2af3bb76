-- ===== src/Tests/Papers.antt =====
-- Runs of get_exam_paper and get_timer_status of server/src/room.cpp.
use network_final_project.Base.{ℕ, ◌≤◌, ◌≡◌, refl, some, [], ◌∷◌, length}
use network_final_project.Base.Int.{pos_part}
use network_final_project.Base.Action.{ok, err}
use network_final_project.Db.{
  Db, PaperQuestion, RoomRow, ParticipantRow, ExamQuestionRow, ExamRow, in_progress, ready,
}
use network_final_project.Room.Lifecycle.{is_participant}
use network_final_project.Room.Questions.{
  paper_question, fetch, fetch_levels, fill_missing, trim, pick_questions,
}
use network_final_project.Room.Paper.{
  ExamPaper, join_questions, load_exam_questions, paper_settings, save_from, save_exam_questions,
  insert_exam_row, ensure_exam, set_total, draw_paper, in_transaction, get_exam_paper,
}
use network_final_project.Room.Paper.Draws.{get_exam_paper_atomic, get_exam_paper-length}
use network_final_project.Room.Paper.Blind.{get_exam_paper_blind}
use network_final_project.Tests.{at_time}
use network_final_project.Tests.Rooms.{room_db, lobby, open_exam, paris}

abbrev started_room : RoomRow
started_room = record lobby { status = in_progress; started_at = some 100 }

abbrev member_row : ParticipantRow
member_row = record { room_id = 1; user_id = 2; status = ready; joined_at = 90 }

-- The bank has one question, so a paper of two questions has one.
abbrev started_db : Db ℕ
started_db = record room_db {
  rooms = started_room ∷ [];
  participants = member_row ∷ [];
  exams = [];
  next_exam = 1;
}

abbrev paris_question : PaperQuestion
paris_question = record {
  question_id = 1;
  question_text = "Capital of France?";
  options = "[]";
  topic = "geography";
  difficulty = "EASY";
}

abbrev one_question : ExamPaper
one_question = record {
  exam_id = 1;
  room_id = 1;
  questions = paris_question ∷ [];
  start_time = 100;
  end_time = 700;
}

abbrev drawn_row : ExamQuestionRow
drawn_row = record { exam_id = 1; question_id = 1; question_order = 1 }

abbrev drawn_exam : ExamRow ℕ
drawn_exam = record open_exam { total_questions = 1 }

abbrev drawn_db : Db ℕ
drawn_db = record started_db {
  exams = drawn_exam ∷ [];
  next_exam = 2;
  exam_questions = drawn_row ∷ [];
}

paper_drawn : get_exam_paper (at_time 100) 1 2 started_db ≡ (ok one_question, drawn_db)
unfolding get_exam_paper is_participant ensure_exam insert_exam_row in_transaction draw_paper
    load_exam_questions join_questions paper_settings pick_questions fetch fetch_levels fill_missing
    trim paper_question save_exam_questions save_from set_total
paper_drawn = refl

-- The same bank with another right answer.
abbrev other_db : Db ℕ
other_db = record started_db { questions = record paris { correct_option = "C" } ∷ [] }

get_exam_paper_blind_example :
    (get_exam_paper (at_time 100) 1 2 started_db).0 ≡ (get_exam_paper (at_time 100) 1 2 other_db).0
get_exam_paper_blind_example =
    get_exam_paper_blind (at_time 100) (λ n qs. refl) 1 2 started_db other_db refl

get_exam_paper-length_example :
    (1 ≤ length one_question.questions)
    × (length one_question.questions ≤ pos_part (paper_settings started_room).total_questions)
get_exam_paper-length_example =
    get_exam_paper-length (at_time 100) 1 2 started_room started_db drawn_db one_question refl
      paper_drawn

paper_twice :
    get_exam_paper (at_time 110) 1 2 drawn_db
    ≡ (err "You have already retrieved the exam paper. Cannot get it twice.", drawn_db)
unfolding get_exam_paper is_participant ensure_exam insert_exam_row in_transaction draw_paper
    load_exam_questions join_questions paper_settings pick_questions fetch fetch_levels fill_missing
    trim paper_question save_exam_questions save_from set_total
paper_twice = refl

get_exam_paper_atomic_example : drawn_db.exam_questions ≡ drawn_db.exam_questions
get_exam_paper_atomic_example =
    get_exam_paper_atomic (at_time 110) 1 2 drawn_db drawn_db
      "You have already retrieved the exam paper. Cannot get it twice." paper_twice refl

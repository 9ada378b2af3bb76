-- ===== src/Tests/Windows.antt =====
-- Runs of the window of client/src/ui.cpp against the server.
use network_final_project.Base.{ℕ, ◌≡◌, refl, String, some, List, [], ◌∷◌, arith, if◌then◌else◌}
use network_final_project.Base.Int.{pos}
use network_final_project.Base.Action.{ok}
use network_final_project.Db.{Db, PaperQuestion, in_progress, ready}
use network_final_project.Db.Env.{Env}
use network_final_project.Auth.{validate, session_user}
use network_final_project.Room.Lifecycle.{is_participant, exam_owned_by}
use network_final_project.Room.Questions.{
  paper_question, fetch, fetch_levels, fill_missing, trim, pick_questions,
}
use network_final_project.Room.Paper.{
  ExamPaper, join_questions, load_exam_questions, paper_settings, save_from, save_exam_questions,
  insert_exam_row, ensure_exam, set_total, draw_paper, in_transaction, get_exam_paper,
}
use network_final_project.Room.Grading.{submit_exam as submit_graded}
use network_final_project.Handlers.Exams.{submit_exam_request}
use network_final_project.Handlers.Fields.{DataLaws}
use network_final_project.Server.{answer, main_handlers}
use network_final_project.Client.State.{ClientState, initial_state}
use network_final_project.Client.Window.{read_options, handle_event}
use network_final_project.Client.Window.Buttons.{get_paper, submit_exam, pressed}
use network_final_project.Client.Window.Shown.{with_paper, handle_event-get_paper}
use network_final_project.Client.Window.Round.{answered, exam_round}
use network_final_project.Tests.{at_time, whole_numbers}
use network_final_project.Tests.Accounts.{ann_logged_in, ann_session}
use network_final_project.Tests.Rooms.{lobby, paris}
use network_final_project.Tests.Frames.{toy, login_json}
use network_final_project.Tests.Toys.{json_of-JsonLaws}
use network_final_project.Tests.Values.{toy_data, toy_view, toy_data-DataLaws}

abbrev pub at_120 : ℕ → Env
at_120 n = at_time 120

abbrev pub ticks : ℕ → ℕ
ticks n = 120

pub toy-DataLaws : DataLaws toy toy_data
toy-DataLaws = toy_data-DataLaws (λ j. 123 ∷ 125 ∷ []) (λ bytes. some login_json)

-- Ann has joined a room whose exam has begun.
abbrev pub begun_db : Db ℕ
begun_db = record ann_logged_in {
  questions = paris ∷ [];
  rooms = record lobby { status = in_progress; started_at = some 100 } ∷ [];
  next_room = 2;
  participants = record { room_id = 1; user_id = 1; status = ready; joined_at = 90 } ∷ [];
}

-- Her window.
abbrev pub ann_window : ClientState
ann_window = record initial_state { token = "6465"; last_errors = "Connected" }

pub ann_is_known : validate (at_time 120) "6465" begun_db ≡ (ok ann_session, begun_db)
unfolding validate session_user
ann_is_known = refl

abbrev opts : PaperQuestion → List (String × String)
opts q = ("A", q.options) ∷ []

abbrev her_paper : ExamPaper
her_paper = record {
  exam_id = 1;
  room_id = 1;
  questions =
      record {
        question_id = 1;
        question_text = "Capital of France?";
        options = "[]";
        topic = "geography";
        difficulty = "EASY";
      }
      ∷ [];
  start_time = 120;
  end_time = 720;
}

abbrev paper_db : Db ℕ
paper_db = (get_exam_paper (at_time 120) 1 1 begun_db).1

paper_drawn : get_exam_paper (at_time 120) 1 1 begun_db ≡ (ok her_paper, paper_db)
unfolding get_exam_paper is_participant ensure_exam insert_exam_row in_transaction draw_paper
    load_exam_questions join_questions paper_settings pick_questions fetch fetch_levels fill_missing
    trim paper_question save_exam_questions save_from set_total
paper_drawn = refl

options_read :
    read_options toy toy_data toy_view (toy_view.items (toy_data.of_column "[]"))
    ≡ ok (("A", "[]") ∷ [])
unfolding read_options
options_read = refl

handle_event-get_paper_example :
    handle_event toy toy_data toy_view
      (answer toy
        (main_handlers toy toy_data whole_numbers)
        at_120
        ticks
        (pressed toy toy_data (get_paper (pos 1)) ann_window)
        begun_db).0
      ann_window
    ≡ (ok tt, with_paper opts her_paper ann_window)
handle_event-get_paper_example =
    handle_event-get_paper toy (json_of-JsonLaws login_json) toy_data toy-DataLaws toy_view opts
      whole_numbers at_120 ticks (pos 1) ann_window ann_session her_paper begun_db begun_db paper_db
      (omega arith, omega arith) ann_is_known paper_drawn (omega arith) (omega arith)
      (omega arith, options_read, tt)

still_known : validate (at_time 120) "6465" paper_db ≡ (ok ann_session, paper_db)
unfolding validate session_user get_exam_paper is_participant ensure_exam insert_exam_row
    in_transaction draw_paper load_exam_questions join_questions paper_settings pick_questions fetch
    fetch_levels fill_missing trim paper_question save_exam_questions save_from set_total
still_known = refl

exam_round_example :
    (submit_exam_request toy toy_data at_120 whole_numbers
      (pressed toy toy_data submit_exam (
        answered
          (λ qid. "C")
          (handle_event toy toy_data toy_view
            (answer toy
              (main_handlers toy toy_data whole_numbers)
              at_120
              ticks
              (pressed toy toy_data (get_paper (pos 1)) ann_window)
              begun_db).0
            ann_window).1))
      paper_db).1
    ≡ (if exam_owned_by (at_time 120) 1 1 paper_db
        then (submit_graded (at_time 120) whole_numbers 1 ((1, "C") ∷ []) paper_db).1
        else paper_db)
exam_round_example =
    exam_round toy (json_of-JsonLaws login_json) toy_data toy-DataLaws toy_view opts whole_numbers
      at_120 ticks (pos 1) ann_window ann_session ann_session her_paper begun_db begun_db paper_db
      paper_db paper_db (λ qid. "C") at_120 (omega arith, omega arith) ann_is_known paper_drawn
      (omega arith, omega arith) (omega arith) (omega arith, options_read, tt) (omega arith, tt)
      still_known

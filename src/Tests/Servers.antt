-- ===== src/Tests/Servers.antt =====
-- Runs of the handlers of server/src/main.cpp behind the table of server/src/server.cpp.
use network_final_project.Base.{ℕ, ◌≡◌, ◌≢◌, refl, String, some, List, [], ◌∷◌, arith, eq_iff}
use network_final_project.Base.Action.{ok}
use network_final_project.Codec.Message.{
  Message, request, unset, message_to_json, message_from_json,
}
use network_final_project.Db.{Db}
use network_final_project.Db.Env.{Env}
use network_final_project.Room.Calls.Results.{outcome, outcome_in}
use network_final_project.Server.{answer, main_handlers}
use network_final_project.Server.Guard.{Served, answer-Served}
use network_final_project.Server.History.{Request, serve, serve-outcome}
use network_final_project.Server.Answers.{IsResponse, message_from_json-answer}
use network_final_project.Tests.{at_time, whole_numbers}
use network_final_project.Tests.Accounts.{ann_logged_in}
use network_final_project.Tests.Rooms.{lobby, closed_exam}
use network_final_project.Tests.Values.{toy_data}
use network_final_project.Tests.Frames.{toy, login_json}
use network_final_project.Tests.Toys.{Json, empty, number, assigned, json_of-JsonLaws}

-- Ann is logged in and has made room 1, in which someone has submitted an exam.
abbrev server_db : Db ℕ
server_db = record ann_logged_in {
  rooms = record lobby { creator_id = 1 } ∷ [];
  next_room = 2;
  exams = closed_exam ∷ [];
  next_exam = 2;
}

abbrev about_room : String → Message Json
about_room action = record {
  type = request;
  action = action;
  timestamp = 120;
  session_id = "6465";
  payload = assigned empty "room_id" (number 1);
  status = unset;
  error_code = "";
  error_message = "";
}

abbrev now : ℕ → Env
now n = at_time 120

abbrev ticks : ℕ → ℕ
ticks n = 120

answer-Served_example : Served whole_numbers now (about_room "START_EXAM") server_db (
    answer toy
      (main_handlers toy toy_data whole_numbers)
      now
      ticks
      (about_room "START_EXAM")
      server_db)
answer-Served_example =
    answer-Served toy toy_data whole_numbers now ticks (about_room "START_EXAM") server_db

abbrev three_requests : List (Request Json)
three_requests =
    (now, ticks, about_room "START_EXAM")
    ∷ (now, ticks, about_room "GET_EXAM_PAPER")
    ∷ (now, ticks, about_room "FINISH_ROOM")
    ∷ []

serve-outcome_example :
    outcome_in 1 (serve toy toy_data whole_numbers three_requests server_db).exams
    ≡ outcome (some closed_exam)
serve-outcome_example =
    serve-outcome toy toy_data whole_numbers 1 three_requests server_db closed_exam refl refl

start_is_named : (about_room "START_EXAM").action ≢ ""
start_is_named = ground (arith, eq_iff "START_EXAM" "")

message_from_json-answer_example :
    IsResponse toy 120
      (about_room "START_EXAM")
      (answer toy
        (main_handlers toy toy_data whole_numbers)
        now
        ticks
        (about_room "START_EXAM")
        server_db).0
    × (message_from_json toy (
          message_to_json toy
            (answer toy
              (main_handlers toy toy_data whole_numbers)
              now
              ticks
              (about_room "START_EXAM")
              server_db).0)
        ≡ ok
            (answer toy
              (main_handlers toy toy_data whole_numbers)
              now
              ticks
              (about_room "START_EXAM")
              server_db).0)
message_from_json-answer_example =
    message_from_json-answer toy (json_of-JsonLaws login_json) toy_data whole_numbers now ticks
      (about_room "START_EXAM") server_db start_is_named refl (omega arith)

-- ===== src/Client/State.antt =====
-- client/include/client/state.hpp: what the window of the client shows.
use network_final_project.Base.{String, List, []}
use network_final_project.Base.Int.{ℤ, pos}
use network_final_project.Handlers.{minus_one}

pub record RoomLine : Type 0 where
  pub room_id : ℤ
  pub room_code : String
  pub room_name : String
  pub status : String
  pub duration_seconds : ℤ

pub record Question : Type 0 where
  pub question_id : ℤ
  pub text : String
  pub difficulty : String
  pub topic : String
  -- The key and the text of each option.
  pub options : List (String × String)
  pub answer : String

pub record ExamSession : Type 0 where
  pub room_id : ℤ
  pub exam_id : ℤ
  pub questions : List Question

pub record PracticeSession : Type 0 where
  pub practice_id : ℤ
  pub questions : List Question

pub record ClientState : Type 0 where
  pub username : String
  pub password : String
  pub token : String
  pub role : String
  pub rooms : List RoomLine
  pub new_room_name : String
  pub new_room_desc : String
  pub new_room_duration_min : ℤ
  pub new_room_q_total : ℤ
  pub new_room_easy : ℤ
  pub new_room_medium : ℤ
  pub new_room_hard : ℤ
  pub exam : ExamSession
  pub practice : PracticeSession
  pub last_history : String
  pub last_results : String
  pub last_errors : String

abbrev pub initial_state : ClientState
initial_state = record {
  username = "";
  password = "";
  token = "";
  role = "";
  rooms = [];
  new_room_name = "Demo room";
  new_room_desc = "Test";
  new_room_duration_min = pos 30;
  new_room_q_total = pos 10;
  new_room_easy = pos 4;
  new_room_medium = pos 4;
  new_room_hard = pos 2;
  exam = record { room_id = minus_one; exam_id = minus_one; questions = [] };
  practice = record { practice_id = minus_one; questions = [] };
  last_history = "";
  last_results = "";
  last_errors = "";
}

-- ===== src/Db.antt =====
-- data/schema.sql: the tables of the quiz database, a list of rows each, in the order of insertion.
-- A table with an AUTOINCREMENT key carries the next key. `D` is the type of `double`.
pub mod Env
use network_final_project.Base.{ℕ, String, Option, List, Bool}
use network_final_project.Base.Int.{ℤ}

pub record UserRow : Type 0 where
  pub id : ℕ
  pub username : String
  pub pass_hash : String
  pub role : String
  pub full_name : String
  pub email : String
  pub created_at : ℕ

pub record SessionRow : Type 0 where
  pub user_id : ℕ
  pub token : String
  pub expires_at : ℕ
  pub created_at : ℕ

pub record QuestionRow : Type 0 where
  pub id : ℕ
  pub text : String
  pub options_json : String
  pub correct_option : String
  pub difficulty : String
  pub topic : String

-- The JSON object that stands for a question in a paper. `options` is the text of the array.
pub record PaperQuestion : Type 0 where
  pub question_id : ℕ
  pub question_text : String
  pub options : String
  pub topic : String
  pub difficulty : String

-- CHECK (status IN ('WAITING','IN_PROGRESS','FINISHED'))
pub data RoomStatus : Type 0 where
  waiting in_progress finished : RoomStatus

pub record RoomRow : Type 0 where
  pub id : ℕ
  pub code : String
  pub name : String
  pub description : String
  pub duration_sec : ℤ
  pub total_questions : ℤ
  pub easy_count : ℤ
  pub medium_count : ℤ
  pub hard_count : ℤ
  pub status : RoomStatus
  pub room_pass : String
  pub creator_id : ℕ
  pub started_at : Option ℕ
  pub created_at : ℕ

-- CHECK (status IN ('READY','IN_EXAM','SUBMITTED'))
pub data ParticipantStatus : Type 0 where
  ready in_exam submitted : ParticipantStatus

pub record ParticipantRow : Type 0 where
  pub room_id : ℕ
  pub user_id : ℕ
  pub status : ParticipantStatus
  pub joined_at : ℕ

pub record ExamRow (D : Type 0) : Type 0 where
  pub id : ℕ
  pub room_id : ℕ
  pub user_id : ℕ
  pub start_at : ℕ
  pub end_at : ℕ
  pub submitted_at : Option ℕ
  pub score : Option D
  pub correct_count : Option ℕ
  pub total_questions : ℕ

pub record AnswerRow : Type 0 where
  pub exam_id : ℕ
  pub question_id : ℕ
  pub selected_option : String
  pub updated_at : ℕ

pub record ExamQuestionRow : Type 0 where
  pub exam_id : ℕ
  pub question_id : ℕ
  pub question_order : ℕ

-- The JSON object in `settings_json`, which is written by `dump` and read back by `parse`.
pub record PracticeSettings : Type 0 where
  pub question_count : ℤ
  pub duration_sec : ℤ
  pub difficulties : List String
  pub topics : List String

pub record PracticeRow (D : Type 0) : Type 0 where
  pub id : ℕ
  pub user_id : ℕ
  pub start_at : ℕ
  pub end_at : ℕ
  pub score : Option D
  pub correct_count : Option ℕ
  pub total_questions : ℕ
  pub settings : PracticeSettings

pub record Db (D : Type 0) : Type 0 where
  pub users : List UserRow
  pub next_user : ℕ
  pub sessions : List SessionRow
  pub questions : List QuestionRow
  pub rooms : List RoomRow
  pub next_room : ℕ
  pub participants : List ParticipantRow
  pub exams : List (ExamRow D)
  pub next_exam : ℕ
  pub answers : List AnswerRow
  pub exam_questions : List ExamQuestionRow
  pub practice_runs : List (PracticeRow D)
  pub next_practice : ℕ

-- What the code uses of `double`: the conversion of an int, arithmetic, `<` and `<=`.
pub record Floats (D : Type 0) : Type 0 where
  pub of_int : ℕ → D
  pub neg : D → D
  pub add : D → D → D
  pub mul : D → D → D
  pub div : D → D → D
  pub le : D → D → Bool
  pub less : D → D → Bool

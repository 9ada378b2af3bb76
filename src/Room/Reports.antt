-- ===== src/Room/Reports.antt =====
-- server/src/room.cpp: get_room_results; get_user_history and get_room_details have modules of their own.
pub mod History
pub mod Details
use network_final_project.Base.{
  ℕ, suc, ◌+◌, String, Option, none, some, List, [], ◌∷◌, ltb, ◌==◌, if◌then◌else◌, length, first,
  select, map,
}
use network_final_project.Base.Action.{Action, pure, gets, or_fail, ◌>>=◌, ◌>>◌}
use network_final_project.Db.{
  Db, UserRow, ExamRow, RoomRow, PracticeRow, PracticeSettings, ParticipantRow, ParticipantStatus,
  Floats,
}
use network_final_project.Db.Env.{
  Env, select_results, select_history_exams, select_history_practices, select_room_info,
  select_participants, opened, prepare, prepares,
}
use network_final_project.Room.{RoomInfo, find_room, has_room_id, order_by}
use network_final_project.Room.Lifecycle.{room_info}

pub record RoomResultRow (D : Type 0) : Type 0 where
  pub user_id : ℕ
  pub username : String
  pub full_name : String
  pub score : D
  pub correct : ℕ
  pub total : ℕ
  pub submitted_at : ℕ

pub record RoomResult (D : Type 0) : Type 0 where
  pub rows : List (RoomResultRow D)
  pub average_score : D
  pub highest_score : D
  pub lowest_score : D
  pub pass_rate : D

-- `sqlite3_column_int` and `sqlite3_column_double` of NULL are 0.
abbrev pub or_zero : Option ℕ → ℕ
or_zero none = 0
or_zero (some n) = n

-- The variables of the loop over the rows.
pub record Tally (D : Type 0) : Type 0 where
  pub sum : D
  pub hi : D
  pub lo : D
  pub seen : ℕ
  pub pass : ℕ

module _ {D : Type 0} (fl : Floats D) where
  abbrev pub score_or_zero : Option D → D
  score_or_zero none = fl.of_int 0
  score_or_zero (some x) = x

  -- `FROM exams e JOIN users u ON e.user_id = u.id WHERE e.room_id = ? AND submitted_at IS NOT NULL`
  unfoldable pub result_rows : ℕ → List UserRow → List (ExamRow D) → List (RoomResultRow D)
  result_rows rid users [] = []
  result_rows rid users (e ∷ es) =
      let later = result_rows rid users es in
      elim e.submitted_at [
        | none ↦ later
        | some t ↦
            if e.room_id == rid
            then elim (first (λ u. u.id == e.user_id) users) [
              | none ↦ later
              | some u ↦
                  record {
                    user_id = u.id;
                    username = u.username;
                    full_name = u.full_name;
                    score = score_or_zero e.score;
                    correct = or_zero e.correct_count;
                    total = e.total_questions;
                    submitted_at = t;
                  }
                  ∷ later
            ]
            else later
      ]

  unfoldable pub tally_row : Tally D → RoomResultRow D → Tally D
  tally_row t row = record {
    sum = fl.add t.sum row.score;
    hi = if fl.less t.hi row.score then row.score else t.hi;
    lo = if fl.less row.score t.lo then row.score else t.lo;
    seen = suc t.seen;
    pass = if fl.le (fl.of_int 5) row.score then suc t.pass else t.pass;
  }

  unfoldable pub tally : Tally D → List (RoomResultRow D) → Tally D
  unfolding tally_row
  tally t [] = t
  tally t (row ∷ rows) = tally (tally_row t row) rows

  abbrev pub tally_start : Tally D
  tally_start = record {
    sum = fl.of_int 0;
    hi = fl.neg (fl.of_int 1_000_000_000);
    lo = fl.of_int 1_000_000_000;
    seen = 0;
    pass = 0;
  }

  -- A room with no submission has zeros.
  unfoldable pub room_result : List (RoomResultRow D) → RoomResult D
  unfolding tally
  room_result rows =
      let t = tally tally_start rows in
      if ltb 0 t.seen
      then record {
        rows = rows;
        average_score = fl.div t.sum (fl.of_int t.seen);
        highest_score = t.hi;
        lowest_score = t.lo;
        pass_rate = fl.div (fl.mul (fl.of_int t.pass) (fl.of_int 100)) (fl.of_int t.seen);
      }
      else record {
        rows = rows;
        average_score = fl.of_int 0;
        highest_score = fl.of_int 0;
        lowest_score = fl.of_int 0;
        pass_rate = fl.of_int 0;
      }

  unfoldable pub get_room_results : Env → ℕ → Action (Db D) (RoomResult D)
  unfolding result_rows room_result
  get_room_results env room_id = do
    opened env
    prepare env select_results
    rows ← gets (λ db. result_rows room_id db.users db.exams)
    pure (room_result rows)

-- ===== src/Room/Reports/History.antt =====
-- server/src/room.cpp: get_user_history.
use network_final_project.Base.{
  ℕ, ◌+◌, String, Option, none, some, List, [], ◌∷◌, ltb, ◌==◌, if◌then◌else◌, length, first,
  select, map,
}
use network_final_project.Base.Action.{Action, pure, gets, ◌>>=◌, ◌>>◌}
use network_final_project.Db.{Db, ExamRow, RoomRow, PracticeRow, PracticeSettings, Floats}
use network_final_project.Db.Env.{
  Env, select_history_exams, select_history_practices, opened, prepares,
}
use network_final_project.Room.{has_room_id}
use network_final_project.Room.Reports.{or_zero, score_or_zero}

-- The JSON objects of the two arrays.
pub record HistoryExam (D : Type 0) : Type 0 where
  pub exam_id : ℕ
  pub room_id : ℕ
  pub score : D
  pub correct : ℕ
  pub total : ℕ
  pub submitted_at : ℕ
  pub room_name : Option String

pub record HistoryPractice (D : Type 0) : Type 0 where
  pub practice_id : ℕ
  pub score : D
  pub correct : ℕ
  pub total : ℕ
  pub submitted_at : ℕ
  pub settings : PracticeSettings

pub record UserHistory (D : Type 0) : Type 0 where
  pub exams : List (HistoryExam D)
  pub practices : List (HistoryPractice D)
  pub avg_score : D

module _ {D : Type 0} (fl : Floats D) where
  unfoldable pub history_exams : ℕ → List RoomRow → List (ExamRow D) → List (HistoryExam D)
  history_exams uid rooms [] = []
  history_exams uid rooms (e ∷ es) =
      let later = history_exams uid rooms es in
      elim e.submitted_at [
        | none ↦ later
        | some t ↦
            if e.user_id == uid
            then record {
              exam_id = e.id;
              room_id = e.room_id;
              score = score_or_zero fl e.score;
              correct = or_zero e.correct_count;
              total = e.total_questions;
              submitted_at = t;
              room_name = elim (first (has_room_id e.room_id) rooms) [
                | none ↦ none
                | some r ↦ some r.name
              ];
            }
              ∷ later
            else later
      ]

  abbrev pub history_practice : PracticeRow D → HistoryPractice D
  history_practice r = record {
    practice_id = r.id;
    score = score_or_zero fl r.score;
    correct = or_zero r.correct_count;
    total = r.total_questions;
    submitted_at = r.end_at;
    settings = r.settings;
  }

  -- `for (auto& e : …) { sum += e.value("score", 0.0); ++cnt; }`
  abbrev pub sum_from : D → List D → D
  sum_from acc [] = acc
  sum_from acc (x ∷ xs) = sum_from (fl.add acc x) xs

  -- A statement that cannot be prepared leaves its array empty.
  unfoldable pub get_user_history : Env → ℕ → Action (Db D) (UserHistory D)
  unfolding history_exams
  get_user_history env user_id = do
    opened env
    exams ← gets (λ db.
        if prepares env select_history_exams then history_exams user_id db.rooms db.exams else [])
    practices ← gets (λ db.
        if prepares env select_history_practices
        then map history_practice (select (λ r. r.user_id == user_id) db.practice_runs)
        else [])
    let n = length exams + length practices
    let sum =
        sum_from (sum_from (fl.of_int 0) (map (λ (e : HistoryExam D). e.score) exams))
          (map (λ (p : HistoryPractice D). p.score) practices)
    pure (record {
      exams = exams;
      practices = practices;
      avg_score = if ltb 0 n then fl.div sum (fl.of_int n) else fl.of_int 0;
    })

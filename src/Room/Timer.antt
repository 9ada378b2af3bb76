-- ===== src/Room/Timer.antt =====
-- server/src/room.cpp: get_timer_status. The times are below 2 ^ 63, as SQLite's integers are.
pub mod Clock
use network_final_project.Base.{
  ℕ, suc, ◌+◌, ◌-◌, ◌%◌, ◌^◌, Option, none, some, List, [], ◌∷◌, ltb, ◌==◌, if◌then◌else◌, first,
}
use network_final_project.Base.Int.{ℤ, pos, negsuc, pos_part, neg_part, sub_ℕ}
use network_final_project.Base.Action.{Action, pure, gets, or_fail, ◌>>=◌, ◌>>◌, refuse_if}
use network_final_project.Db.{Db, ExamRow, RoomRow}
use network_final_project.Db.Env.{Env, select_timer, opened, prepare}
use network_final_project.Room.{has_room_id}
use network_final_project.Room.Paper.{has_exam_id}

pub record TimerStatus : Type 0 where
  pub started_at : ℕ
  pub duration_sec : ℕ
  pub remaining_sec : ℤ
  pub server_time : ℕ

-- `static_cast<int32_t>` of an unsigned value, and of the difference of two `int32_t`.
abbrev pub to_i32 : ℕ → ℤ
to_i32 n = let w = n % 2 ^ 32 in if ltb w (2 ^ 31) then pos w else negsuc (2 ^ 32 - w - 1)

-- `static_cast<uint32_t>` of an int.
abbrev pub to_u32 : ℤ → ℕ
to_u32 (pos n) = n % 2 ^ 32
to_u32 (negsuc n) = 2 ^ 32 - suc n % 2 ^ 32

abbrev pub sub_ℤ : ℤ → ℤ → ℤ
sub_ℤ a b = sub_ℕ (pos_part a + neg_part b) (neg_part a + pos_part b)

-- `FROM exams e JOIN rooms r ON e.room_id = r.id WHERE e.id = ?`, the first row.
unfoldable pub exam_room :
    {D : Type 0} → ℕ → List RoomRow → List (ExamRow D) → Option (ExamRow D × RoomRow)
exam_room eid rooms [] = none
exam_room eid rooms (e ∷ es) =
    let later = exam_room eid rooms es in
    if has_exam_id eid e
    then elim (first (has_room_id e.room_id) rooms) [ none ↦ later | some r ↦ some (e, r) ]
    else later

unfoldable pub timer_at : ℕ → ℕ → ℤ → TimerStatus
timer_at current_time exam_start duration =
    let elapsed = if ltb exam_start current_time then current_time - exam_start else 0 in
    record {
      started_at = exam_start;
      duration_sec = to_u32 duration;
      remaining_sec = sub_ℤ (to_i32 (to_u32 duration)) (to_i32 elapsed);
      server_time = current_time;
    }

unfoldable pub get_timer_status : {D : Type 0} → Env → ℕ → Action (Db D) TimerStatus
unfolding exam_room timer_at
get_timer_status env exam_id = do
  opened env
  refuse_if (exam_id == 0) "invalid exam_id"
  prepare env select_timer
  (e, r) ← or_fail (← gets (λ db. exam_room exam_id db.rooms db.exams)) "exam not found"
  pure (timer_at (env.clock 0) e.start_at r.duration_sec)

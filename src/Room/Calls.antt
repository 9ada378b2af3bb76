-- ===== src/Room/Calls.antt =====
-- server/include/server/room.hpp: the public methods of RoomManager that write to the database, as
-- one type of calls. The mutex makes any use of the manager a sequence of such calls.
pub mod Rooms
pub mod Status
pub mod History
pub mod Results
use network_final_project.Base.{ℕ, String, List, [], ◌∷◌}
use network_final_project.Base.Int.{ℤ}
use network_final_project.Db.{Db, Floats}
use network_final_project.Db.Env.{Env}
use network_final_project.Room.{RoomSettings}
use network_final_project.Room.Lifecycle.{
  create_room, join_room, start_room, delete_room, finish_room,
}
use network_final_project.Room.Paper.{get_exam_paper}
use network_final_project.Room.Grading.{submit_answers, submit_exam, auto_submit_expired_exams}
use network_final_project.Room.Practice.{start_practice, submit_practice}

pub data Call : Type 0 where
  creates : ℕ → String → String → String → RoomSettings → Call
  joins : ℕ → ℕ → String → Call
  starts deletes finishes takes_paper : ℕ → ℕ → Call
  saves submits : ℕ → List (ℕ × String) → Call
  practises : ℕ → ℤ → ℤ → List String → List String → Call
  submits_practice : ℕ → ℕ → List (ℕ × String) → Call
  expires : Call

module _ {D : Type 0} (fl : Floats D) where
  -- What a call leaves in the database, whether it succeeds or fails.
  unfoldable pub step : Env → Call → Db D → Db D
  step env (creates uid name description pass settings) db =
      (create_room env uid name description pass settings db).1
  step env (joins rid uid pass) db = (join_room env rid uid pass db).1
  step env (starts rid uid) db = (start_room env rid uid db).1
  step env (deletes rid uid) db = (delete_room env rid uid db).1
  step env (finishes rid uid) db = (finish_room env rid uid db).1
  step env (takes_paper rid uid) db = (get_exam_paper env rid uid db).1
  step env (saves eid answers) db = (submit_answers env eid answers db).1
  step env (submits eid answers) db = (submit_exam env fl eid answers db).1
  step env (practises uid count duration difficulties topics) db =
      (start_practice env uid count duration difficulties topics db).1
  step env (submits_practice pid uid answers) db = (submit_practice env fl pid uid answers db).1
  step env expires db = (auto_submit_expired_exams env fl db).1

  unfoldable pub run : List (Env × Call) → Db D → Db D
  run [] db = db
  run ((env, c) ∷ rest) db = run rest (step env c db)

-- ===== src/Room.antt =====
-- server/include/server/room.hpp: the values that the methods of RoomManager take and return. The
-- methods are in the modules below, an action on the database each; the recursive mutex is held
-- for the whole of a public method, so methods do not interleave.
pub mod Lifecycle
pub mod Questions
pub mod Paper
pub mod Grading
pub mod Practice
pub mod Reports
pub mod Timer
pub mod Calls
use network_final_project.Base.{
  ℕ, zero, suc, ◌+◌, ◌-◌, ◌/◌, ◌%◌, ◌^◌, String, Bool, true, false, ◌&&◌, Option, none, some, List,
  [], ◌∷◌, ltb, leb, ◌==◌, if◌then◌else◌, first, any,
}
use network_final_project.Base.Int.{ℤ, pos, negsuc}
use network_final_project.Db.{
  Db, RoomRow, RoomStatus, waiting, in_progress, finished, ParticipantRow,
}

pub record RoomSettings : Type 0 where
  pub total_questions : ℤ
  pub duration_seconds : ℤ
  pub easy : ℤ
  pub medium : ℤ
  pub hard : ℤ

pub record RoomInfo : Type 0 where
  pub id : ℕ
  pub code : String
  pub name : String
  pub description : String
  pub duration_seconds : ℤ
  pub status : RoomStatus
  pub creator_id : ℕ
  pub creator_name : String
  pub participant_count : ℕ
  pub started_at : ℕ

-- The text of a status in the table.
unfoldable pub status_text : RoomStatus → String
status_text waiting = "WAITING"
status_text in_progress = "IN_PROGRESS"
status_text finished = "FINISHED"

abbrev pub is_waiting : RoomStatus → Bool
is_waiting waiting = true
is_waiting _ = false

abbrev pub is_in_progress : RoomStatus → Bool
is_in_progress in_progress = true
is_in_progress _ = false

abbrev pub has_room_id : ℕ → RoomRow → Bool
has_room_id rid r = r.id == rid

-- `SELECT … FROM rooms WHERE id = ?`
abbrev pub find_room : {D : Type 0} → ℕ → Db D → Option RoomRow
find_room rid db = first (has_room_id rid) db.rooms

-- The columns with the constraint UNIQUE(room_id, user_id).
abbrev pub joins : ℕ → ℕ → ParticipantRow → Bool
joins rid uid p = p.room_id == rid && p.user_id == uid

-- `static_cast<uint64_t>(z)`.
abbrev pub to_u64 : ℤ → ℕ
to_u64 (pos n) = n % 2 ^ 64
to_u64 (negsuc n) = 2 ^ 64 - suc n % 2 ^ 64

-- `ORDER BY key`: a stable insertion sort.
module _ {A : Type 0} (key : A → ℕ) where
  abbrev pub insert_by : A → List A → List A
  insert_by x [] = x ∷ []
  insert_by x (y ∷ ys) =
      let later = insert_by x ys in if leb (key x) (key y) then x ∷ y ∷ ys else y ∷ later

  abbrev pub order_by : List A → List A
  order_by [] = []
  order_by (x ∷ xs) = insert_by x (order_by xs)

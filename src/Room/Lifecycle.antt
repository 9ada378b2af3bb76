-- ===== src/Room/Lifecycle.antt =====
-- server/src/room.cpp: create_room, list_rooms, join_room, start_room, delete_room, finish_room and
-- the queries is_room_waiting, is_participant and exam_owned_by.
use Prim.Native.String
use network_final_project.Base.{
  ℕ, zero, suc, ◌/◌, ◌%◌, String, Bool, true, false, not, ◌&&◌, Option, none, some, List, [], ◌∷◌,
  ◌++◌, map, ltb, ◌==◌, str_eq, if◌then◌else◌, first, select, update, delete, any, count, c_str,
}
use network_final_project.Base.Action.{Action, pure, gets, or_fail, ◌>>=◌, ◌>>◌, refuse_if, modify}
use network_final_project.Crypto.{char_or}
use network_final_project.Db.{Db, RoomRow, waiting, in_progress, finished, ParticipantRow, ready}
use network_final_project.Db.Env.{
  Env, insert_room, select_rooms, select_room_access, insert_participant, start_waiting_room,
  select_participant, select_owner, select_room_status, select_creator, delete_room_row,
  update_finished, opened, prepare, done, prepares, steps,
}
use network_final_project.Room.{
  RoomSettings, RoomInfo, status_text, is_waiting, is_in_progress, has_room_id, find_room, joins,
}

-- `std::to_string` of a 64-bit value, which has at most 20 digits.
unfoldable pub decimal_from : ℕ → ℕ → String → String
decimal_from zero v s = s
decimal_from (suc f) v s =
    let rest = decimal_from f (v / 10) (String.◌∷◌ (char_or "0123456789" (v % 10)) s) in
    if ltb v 10 then String.◌∷◌ (char_or "0123456789" v) s else rest

unfoldable pub to_string : ℕ → String
to_string v = decimal_from 20 v ""

unfoldable pub room_code : ℕ → ℕ → String
room_code now creator_id =
    String.◌++◌ "ROOM-" (String.◌++◌ (to_string now) (String.◌++◌ "-" (to_string creator_id)))

abbrev pub has_code : String → RoomRow → Bool
has_code code r = str_eq r.code code

-- `WHERE id = ? AND creator_id = ? AND status = 'WAITING'`
abbrev pub startable : ℕ → ℕ → RoomRow → Bool
startable rid creator_id r = r.id == rid && (r.creator_id == creator_id && is_waiting r.status)

-- The row of `list_rooms`: creator's name by LEFT JOIN, and the number of participants.
unfoldable pub room_info : {D : Type 0} → Db D → RoomRow → RoomInfo
room_info db r = record {
  id = r.id;
  code = r.code;
  name = r.name;
  description = r.description;
  duration_seconds = r.duration_sec;
  status = r.status;
  creator_id = r.creator_id;
  creator_name = elim (first (λ u. u.id == r.creator_id) db.users) [
    | none ↦ ""
    | some u ↦ u.username
  ];
  participant_count = count (λ p. p.room_id == r.id) db.participants;
  started_at = elim r.started_at [ none ↦ 0 | some t ↦ t ];
}

-- An absent or empty filter lists every room.
abbrev pub listed : Option String → RoomRow → Bool
listed none r = true
listed (some filter) r =
    if str_eq filter "" then true else str_eq (status_text r.status) (c_str filter)

-- `INSERT OR IGNORE INTO room_participants`
unfoldable pub add_participant : {D : Type 0} → ParticipantRow → Db D → Db D
add_participant p db =
    if any (joins p.room_id p.user_id) db.participants
    then db
    else record db { participants = db.participants ++ p ∷ [] }

-- The row that create_room inserts.
abbrev pub new_room : Env → ℕ → ℕ → String → String → String → RoomSettings → RoomRow
new_room env room_id creator_id name description room_pass settings = record {
  id = room_id;
  code = room_code (env.clock 0) creator_id;
  name = c_str name;
  description = c_str description;
  duration_sec = settings.duration_seconds;
  total_questions = settings.total_questions;
  easy_count = settings.easy;
  medium_count = settings.medium;
  hard_count = settings.hard;
  status = waiting;
  room_pass = c_str room_pass;
  creator_id = creator_id;
  started_at = none;
  created_at = env.clock 1;
}

module _ {D : Type 0} (env : Env) where
  unfoldable pub create_room : ℕ → String → String → String → RoomSettings → Action (Db D) RoomInfo
  create_room creator_id name description room_pass settings = do
    opened env
    let code = room_code (env.clock 0) creator_id
    prepare env insert_room
    done env insert_room 0
    taken ← gets (λ db. any (has_code code) db.rooms)
    refuse_if taken "UNIQUE constraint failed: rooms.code"
    room_id ← gets (λ db. db.next_room)
    modify λ db. record db {
      rooms = db.rooms ++ new_room env room_id creator_id name description room_pass settings ∷ [];
      next_room = suc room_id;
    }
    pure (record {
      id = room_id;
      code = code;
      name = name;
      description = description;
      duration_seconds = settings.duration_seconds;
      status = waiting;
      creator_id = creator_id;
      creator_name = "";
      participant_count = 0;
      started_at = 0;
    })

  unfoldable pub list_rooms : Option String → Action (Db D) (List RoomInfo)
  list_rooms status_filter = do
    opened env
    prepare env select_rooms
    gets (λ db. map (room_info db) (select (listed status_filter) db.rooms))

  unfoldable pub join_room : ℕ → ℕ → String → Action (Db D) (Unit {0})
  unfolding add_participant
  join_room room_id user_id pass = do
    opened env
    prepare env select_room_access
    room ← or_fail (← gets (find_room room_id)) "room not found"
    refuse_if (not (is_waiting room.status) && not (is_in_progress room.status))
        "room has finished or invalid status"
    refuse_if (not (str_eq room.room_pass pass)) "wrong room password"
    prepare env insert_participant
    done env insert_participant 0
    modify (
        add_participant (record {
          room_id = room_id;
          user_id = user_id;
          status = ready;
          joined_at = env.clock 0;
        }))

  -- The UPDATE that failed and the UPDATE that changed no row are reported alike.
  unfoldable pub start_room : ℕ → ℕ → Action (Db D) (Unit {0})
  start_room room_id creator_id = do
    opened env
    prepare env start_waiting_room
    stepped ← pure (steps env start_waiting_room 0)
    refuse_if (not stepped) "Cannot start (not creator or not waiting)"
    changes ← gets (λ db. any (startable room_id creator_id) db.rooms)
    refuse_if (not changes) "Cannot start (not creator or not waiting)"
    modify λ db. record db {
      rooms =
          update (startable room_id creator_id)
            (λ r. record r { status = in_progress; started_at = some (env.clock 0) }) db.rooms;
    }

  unfoldable pub delete_room : ℕ → ℕ → Action (Db D) (Unit {0})
  delete_room room_id user_id = do
    opened env
    prepare env select_creator
    room ← or_fail (← gets (find_room room_id)) "room not found"
    refuse_if (not (room.creator_id == user_id)) "only room creator can delete this room"
    refuse_if (is_in_progress room.status) "cannot delete room that is in progress"
    prepare env delete_room_row
    done env delete_room_row 0
    modify λ db. record db { rooms = delete (has_room_id room_id) db.rooms }

  unfoldable pub finish_room : ℕ → ℕ → Action (Db D) (Unit {0})
  finish_room room_id user_id = do
    opened env
    prepare env select_creator
    room ← or_fail (← gets (find_room room_id)) "room not found"
    refuse_if (not (room.creator_id == user_id)) "only room creator can finish this room"
    refuse_if (not (is_in_progress room.status)) "can only finish rooms that are in progress"
    prepare env update_finished
    done env update_finished 0
    modify λ db. record db {
      rooms = update (has_room_id room_id) (λ r. record r { status = finished }) db.rooms;
    }

  -- A statement that cannot be prepared answers `false` in the three queries.
  unfoldable pub is_room_waiting : ℕ → Db D → Bool
  is_room_waiting room_id db =
      prepares env select_room_status
      && elim (find_room room_id db) [ none ↦ false | some r ↦ is_waiting r.status ]

  unfoldable pub is_participant : ℕ → ℕ → Db D → Bool
  is_participant room_id user_id db =
      prepares env select_participant && any (joins room_id user_id) db.participants

  unfoldable pub exam_owned_by : ℕ → ℕ → Db D → Bool
  exam_owned_by exam_id user_id db =
      prepares env select_owner && any (λ e. e.id == exam_id && e.user_id == user_id) db.exams

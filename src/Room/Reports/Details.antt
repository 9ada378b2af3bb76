-- ===== src/Room/Reports/Details.antt =====
-- server/src/room.cpp: get_room_details.
use network_final_project.Base.{ℕ, String, Option, none, some, List, ◌==◌, first, select, map}
use network_final_project.Base.Action.{Action, pure, gets, or_fail, ◌>>=◌, ◌>>◌}
use network_final_project.Db.{Db, UserRow, ParticipantRow, ParticipantStatus}
use network_final_project.Db.Env.{Env, select_room_info, select_participants, opened, prepare}
use network_final_project.Room.{RoomInfo, find_room, order_by}
use network_final_project.Room.Lifecycle.{room_info}

pub record RoomParticipant : Type 0 where
  pub user_id : ℕ
  pub username : String
  pub full_name : String
  pub status : ParticipantStatus
  pub joined_at : ℕ

pub record RoomDetails : Type 0 where
  pub info : RoomInfo
  pub creator_name : String
  pub participants : List RoomParticipant

-- `LEFT JOIN users u`: a missing account gives empty names.
abbrev pub column : (UserRow → String) → Option UserRow → String
column f none = ""
column f (some u) = f u

unfoldable pub participant_of : List UserRow → ParticipantRow → RoomParticipant
participant_of users p =
    let u = first (λ (u : UserRow). u.id == p.user_id) users in
    record {
      user_id = p.user_id;
      username = column (λ u. u.username) u;
      full_name = column (λ u. u.full_name) u;
      status = p.status;
      joined_at = p.joined_at;
    }

-- `details.info` gets no creator name and no start time; the name stands beside it.
unfoldable pub get_room_details : {D : Type 0} → Env → ℕ → Action (Db D) RoomDetails
unfolding participant_of room_info
get_room_details env room_id = do
  opened env
  prepare env select_room_info
  room ← or_fail (← gets (find_room room_id)) "Room not found"
  info ← gets (λ db. room_info db room)
  prepare env select_participants
  rows ← gets (λ db. select (λ p. p.room_id == room_id) db.participants)
  users ← gets (λ db. db.users)
  pure (record {
    info = record info { creator_name = ""; started_at = 0 };
    creator_name = info.creator_name;
    participants = map (participant_of users) (order_by (λ p. p.joined_at) rows);
  })

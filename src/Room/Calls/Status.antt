-- ===== src/Room/Calls/Status.antt =====
-- server/src/room.cpp: what a call can do to a room that exists.
use network_final_project.Base.{
  ℕ, ◌≤◌, ◌≡◌, refl, ◌≢◌, ◌⊎◌, inl, inr, String, true, false, List, [], ◌∷◌, Option, none, some,
  arith, first, ◌==◌, Bool-cases,
}
use network_final_project.Base.Rows.{
  first-update, first-append_some, first-delete_self, first-delete_other, first_holds,
}
use network_final_project.Db.{Db, Floats, RoomRow, RoomStatus, waiting, in_progress, finished}
use network_final_project.Db.Env.{Env}
use network_final_project.Room.{RoomSettings, has_room_id, find_room}
use network_final_project.Room.Lifecycle.{
  create_room, join_room, start_room, delete_room, finish_room, startable, new_room,
}
use network_final_project.Room.Calls.{
  Call, creates, joins, starts, deletes, finishes, takes_paper, saves, submits, practises,
  submits_practice, expires, step,
}
use network_final_project.Room.Calls.Rooms.{
  get_exam_paper-rooms, submit_answers-rooms, start_practice-rooms, submit_exam-rooms,
  submit_practice-rooms, auto_submit_expired_exams-rooms,
}

abbrev pub begun : Env → RoomRow → RoomRow
begun env r = record r { status = in_progress; started_at = some (env.clock 0) }

abbrev pub ended : RoomRow → RoomRow
ended r = record r { status = finished }

-- What becomes of the room `r` in a call `c`; `o` is the room with its id afterwards.
abbrev pub Fate : Env → Call → RoomRow → Option RoomRow → Type 0
Fate env c r o =
    (o ≡ some r)
    ⊎ (((c ≡ starts r.id r.creator_id) × (r.status ≡ waiting) × (o ≡ some (begun env r)))
        ⊎ (((c ≡ finishes r.id r.creator_id) × (r.status ≡ in_progress) × (o ≡ some (ended r)))
            ⊎ ((c ≡ deletes r.id r.creator_id) × (r.status ≢ in_progress) × (o ≡ none))))

apart : (a b c : ℕ) → (b == a) ≡ false → (c == a) ≡ true → (c == b) ≡ false
apart a b c h e = ground arith

module _ {D : Type 0} (env : Env) (rid : ℕ) (db : Db D) (r : RoomRow)
    (found : find_room rid db ≡ some r) where
  same_key : (k : ℕ) → k ≡ rid → find_room k db ≡ some r
  same_key k e = rw e found

  create_room-Fate :
      (c : Call) (uid : ℕ) (name description pass : String) (settings : RoomSettings)
      → Fate env c r (find_room rid (create_room env uid name description pass settings db).1)
  unfolding create_room
  create_room-Fate c uid name description pass settings =
      let row = new_room env db.next_room uid name description pass settings in
      ground (arith, first-append_some (has_room_id rid) db.rooms (row ∷ []) r found)

  start_room-Fate :
      (room_id uid : ℕ)
      → Fate env (starts room_id uid) r (find_room rid (start_room env room_id uid db).1)
  unfolding start_room
  start_room-Fate room_id uid = ground (
    arith,
    first_holds (has_room_id rid) db.rooms r found,
    first-update (has_room_id rid) (startable room_id uid) (begun env) db.rooms (λ x. refl),
  )

  finish_room-Fate :
      (room_id uid : ℕ)
      → Fate env (finishes room_id uid) r (find_room rid (finish_room env room_id uid db).1)
  unfolding finish_room
  finish_room-Fate room_id uid = ground (
    arith,
    first_holds (has_room_id rid) db.rooms r found,
    first-update (has_room_id rid) (has_room_id room_id) ended db.rooms (λ x. refl),
    same_key room_id,
  )

  delete_room-Fate :
      (room_id uid : ℕ)
      → Fate env (deletes room_id uid) r (find_room rid (delete_room env room_id uid db).1)
  unfolding delete_room
  delete_room-Fate room_id uid = elim (Bool-cases (room_id == rid)) [
    | inl same ↦ ground (
      arith,
      first_holds (has_room_id rid) db.rooms r found,
      first-delete_self (has_room_id rid) db.rooms,
      same_key room_id,
    )
    | inr other ↦ ground (
      arith,
      first-delete_other (has_room_id rid) (has_room_id room_id) db.rooms
          (λ x. apart rid room_id x.id other),
    )
  ]

  join_room-Fate :
      (c : Call) (room_id uid : ℕ) (pass : String)
      → Fate env c r (find_room rid (join_room env room_id uid pass db).1)
  unfolding join_room
  join_room-Fate c room_id uid pass = ground arith

module _ {D : Type 0} (fl : Floats D) (env : Env) (rid : ℕ) (db : Db D) (r : RoomRow)
    (found : find_room rid db ≡ some r) where
  unchanged :
      (c : Call) (rooms : List RoomRow)
      → rooms ≡ db.rooms
      → Fate env c r (first (has_room_id rid) rooms)
  unchanged c rooms e = inl (rw e found)

  -- A room stays as it is, is started or finished by its creator in the right status, or is
  -- deleted by its creator while it is not in progress. No other call touches it.
  pub step-Fate : (c : Call) → Fate env c r (find_room rid (step fl env c db))
  unfolding step
  step-Fate (creates uid name description pass settings) =
      create_room-Fate env rid db r found _ uid name description pass settings
  step-Fate (joins room_id uid pass) = join_room-Fate env rid db r found _ room_id uid pass
  step-Fate (starts room_id uid) = start_room-Fate env rid db r found room_id uid
  step-Fate (deletes room_id uid) = delete_room-Fate env rid db r found room_id uid
  step-Fate (finishes room_id uid) = finish_room-Fate env rid db r found room_id uid
  step-Fate (takes_paper room_id uid) = unchanged _ _ (get_exam_paper-rooms env room_id uid db).0
  step-Fate (saves eid answers) = unchanged _ _ (submit_answers-rooms env eid answers db).0
  step-Fate (submits eid answers) = unchanged _ _ (submit_exam-rooms env fl eid answers db).0
  step-Fate (practises uid count duration difficulties topics) =
      unchanged _ _ (start_practice-rooms env uid count duration difficulties topics db).0
  step-Fate (submits_practice pid uid answers) =
      unchanged _ _ (submit_practice-rooms env fl pid uid answers db).0
  step-Fate expires = unchanged _ _ (auto_submit_expired_exams-rooms env fl db).0

-- WAITING, IN_PROGRESS, FINISHED.
abbrev pub rank : RoomStatus → ℕ
rank waiting = 0
rank in_progress = 1
rank finished = 2

pub Fate-rank :
    (env : Env) (c : Call) (r r' : RoomRow)
    → Fate env c r (some r')
    → (rank r.status ≤ rank r'.status) × (r'.id ≡ r.id) × (r'.creator_id ≡ r.creator_id)
Fate-rank env c r r' f = ground arith

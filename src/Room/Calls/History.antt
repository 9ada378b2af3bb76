-- ===== src/Room/Calls/History.antt =====
-- server/src/room.cpp: the ids and the status of rooms over any history of calls.
use network_final_project.Base.{
  ℕ, suc, ◌≤◌, ◌<◌, ◌≡◌, refl, ◌∙◌, ◌⊎◌, inl, inr, String, Bool, false, List, [], ◌∷◌, ◌++◌, none,
  some, arith, first, update, delete, ◌==◌, Option-cases,
}
use mathlib.Core.Path.{subst}
use network_final_project.Base.Rows.{first-update}
use network_final_project.Db.{Db, Floats, RoomRow}
use network_final_project.Db.Env.{Env}
use network_final_project.Room.{RoomSettings, has_room_id, find_room}
use network_final_project.Room.Lifecycle.{
  create_room, join_room, start_room, delete_room, finish_room, startable, new_room,
}
use network_final_project.Room.Calls.{
  Call, creates, joins, starts, deletes, finishes, takes_paper, saves, submits, practises,
  submits_practice, expires, step, run,
}
use network_final_project.Room.Calls.Rooms.{
  get_exam_paper-rooms, submit_answers-rooms, start_practice-rooms, submit_exam-rooms,
  submit_practice-rooms, auto_submit_expired_exams-rooms,
}
use network_final_project.Room.Calls.Status.{rank, Fate, begun, ended, Fate-rank, step-Fate}

-- Every id in the list is below the bound.
abbrev pub IsNumbered : ℕ → List RoomRow → Type 0
IsNumbered n [] = Unit
IsNumbered n (r ∷ rs) = (r.id < n) × IsNumbered n rs

IsNumbered-append :
    (n : ℕ) (rs : List RoomRow) (r : RoomRow)
    → IsNumbered n rs
    → r.id ≡ n
    → IsNumbered (suc n) (rs ++ r ∷ [])
IsNumbered-append n [] r v e = (omega arith, tt)
IsNumbered-append n (x ∷ rs) r v e = (omega arith, IsNumbered-append n rs r v.1 e)

IsNumbered-update :
    (n : ℕ) (q : RoomRow → Bool) (f : RoomRow → RoomRow) (rs : List RoomRow)
    → ((r : RoomRow) → (f r).id ≡ r.id)
    → IsNumbered n rs
    → IsNumbered n (update q f rs)
IsNumbered-update n q f [] keep v = tt
IsNumbered-update n q f (r ∷ rs) keep v =
    ground (arith, keep r, IsNumbered-update n q f rs keep v.1)

IsNumbered-delete :
    (n : ℕ) (q : RoomRow → Bool) (rs : List RoomRow) → IsNumbered n rs → IsNumbered n (delete q rs)
IsNumbered-delete n q [] v = tt
IsNumbered-delete n q (r ∷ rs) v = ground (arith, IsNumbered-delete n q rs v.1)

first_numbered :
    (n k : ℕ) (rs : List RoomRow) (r : RoomRow)
    → IsNumbered n rs
    → first (has_room_id k) rs ≡ some r
    → k < n
first_numbered n k [] r v e = cc
first_numbered n k (x ∷ rs) r v e = ground (arith, first_numbered n k rs r v.1)

first-delete-none :
    (k : ℕ) (q : RoomRow → Bool) (rs : List RoomRow)
    → first (has_room_id k) rs ≡ none
    → first (has_room_id k) (delete q rs) ≡ none
first-delete-none k q [] e = refl
first-delete-none k q (r ∷ rs) e = ground (arith, first-delete-none k q rs)

first-append_none :
    (k : ℕ) (rs : List RoomRow) (r : RoomRow)
    → first (has_room_id k) rs ≡ none
    → (r.id == k) ≡ false
    → first (has_room_id k) (rs ++ r ∷ []) ≡ none
first-append_none k [] r e h = ground arith
first-append_none k (x ∷ rs) r e h = ground (arith, first-append_none k rs r)

-- The ids stay below the next key, and an id that is used up names no room again.
abbrev pub IsSpent : ℕ → ℕ → List RoomRow → Type 0
IsSpent k n rooms = (first (has_room_id k) rooms ≡ none) × (k < n)

module _ {D : Type 0} (fl : Floats D) (env : Env) (db : Db D) where
  -- What every call keeps.
  abbrev Holds : ℕ → List RoomRow → Type 0
  Holds n rooms =
      (IsNumbered db.next_room db.rooms → IsNumbered n rooms)
      × ((k : ℕ) → IsSpent k db.next_room db.rooms → IsSpent k n rooms)
      × (db.next_room ≤ n)

  abbrev Keeps : Db D → Type 0
  Keeps db' = Holds db'.next_room db'.rooms

  same-Holds :
      (n : ℕ) (rooms : List RoomRow) → (rooms ≡ db.rooms) × (n ≡ db.next_room) → Holds n rooms
  same-Holds n rooms e = (λ v. rw (e.0, e.1) v, λ k s. rw (e.0, e.1) s, omega arith)

  create_room-Keeps :
      (uid : ℕ) (name description pass : String) (settings : RoomSettings)
      → Keeps (create_room env uid name description pass settings db).1
  unfolding create_room
  create_room-Keeps uid name description pass settings =
      let row = new_room env db.next_room uid name description pass settings in
      (
        λ v. ground (arith, IsNumbered-append db.next_room db.rooms row v refl),
        λ k s. ground (arith, first-append_none k db.rooms row s.0),
        ground arith,
      )

  start_room-Keeps : (rid uid : ℕ) → Keeps (start_room env rid uid db).1
  unfolding start_room
  start_room-Keeps rid uid =
      let q = startable rid uid in
      (
        λ v. ground (arith, IsNumbered-update db.next_room q (begun env) db.rooms (λ r. refl) v),
        λ k s. ground (arith, first-update (has_room_id k) q (begun env) db.rooms (λ r. refl)),
        ground arith,
      )

  finish_room-Keeps : (rid uid : ℕ) → Keeps (finish_room env rid uid db).1
  unfolding finish_room
  finish_room-Keeps rid uid =
      let q = has_room_id rid in
      (
        λ v. ground (arith, IsNumbered-update db.next_room q ended db.rooms (λ r. refl) v),
        λ k s. ground (arith, first-update (has_room_id k) q ended db.rooms (λ r. refl)),
        ground arith,
      )

  delete_room-Keeps : (rid uid : ℕ) → Keeps (delete_room env rid uid db).1
  unfolding delete_room
  delete_room-Keeps rid uid =
      let q = has_room_id rid in
      (
        λ v. ground (arith, IsNumbered-delete db.next_room q db.rooms v),
        λ k s. ground (arith, first-delete-none k q db.rooms s.0),
        ground arith,
      )

  join_room-Keeps : (rid uid : ℕ) (pass : String) → Keeps (join_room env rid uid pass db).1
  unfolding join_room
  join_room-Keeps rid uid pass = (λ v. ground arith, λ k s. ground arith, ground arith)

  step-Keeps : (c : Call) → Keeps (step fl env c db)
  unfolding step
  step-Keeps (creates uid name description pass settings) =
      create_room-Keeps uid name description pass settings
  step-Keeps (joins rid uid pass) = join_room-Keeps rid uid pass
  step-Keeps (starts rid uid) = start_room-Keeps rid uid
  step-Keeps (deletes rid uid) = delete_room-Keeps rid uid
  step-Keeps (finishes rid uid) = finish_room-Keeps rid uid
  step-Keeps (takes_paper rid uid) = same-Holds _ _ (get_exam_paper-rooms env rid uid db)
  step-Keeps (saves eid answers) = same-Holds _ _ (submit_answers-rooms env eid answers db)
  step-Keeps (submits eid answers) = same-Holds _ _ (submit_exam-rooms env fl eid answers db)
  step-Keeps (practises uid count duration difficulties topics) =
      same-Holds _ _ (start_practice-rooms env uid count duration difficulties topics db)
  step-Keeps (submits_practice pid uid answers) =
      same-Holds _ _ (submit_practice-rooms env fl pid uid answers db)
  step-Keeps expires = same-Holds _ _ (auto_submit_expired_exams-rooms env fl db)

module _ {D : Type 0} (fl : Floats D) where
  run-IsSpent :
      (h : List (Env × Call)) (db : Db D) (k : ℕ)
      → IsSpent k db.next_room db.rooms
      → IsSpent k (run fl h db).next_room (run fl h db).rooms
  unfolding run
  run-IsSpent [] db k s = s
  run-IsSpent ((env, c) ∷ h) db k s =
      run-IsSpent h (step fl env c db) k ((step-Keeps fl env db c).1 k s)

  -- Where room ids are below the next key, after any history of calls a room is gone for good, or
  -- it has the same id and creator and a status at or past the one that it had.
  pub run-rank :
      (h : List (Env × Call)) (db : Db D) (k : ℕ) (r : RoomRow)
      → IsNumbered db.next_room db.rooms
      → find_room k db ≡ some r
      → IsSpent k (run fl h db).next_room (run fl h db).rooms
        ⊎ ((r' : RoomRow) × (find_room k (run fl h db) ≡ some r')
            × (rank r.status ≤ rank r'.status)
            × (r'.id ≡ r.id)
            × (r'.creator_id ≡ r.creator_id))
  unfolding run
  run-rank [] db k r v e = inr (r, e, omega arith, refl, refl)
  run-rank ((env, c) ∷ h) db k r v e = elim (Option-cases (find_room k (step fl env c db))) [
    | inl gone ↦ inl (
        run-IsSpent h (step fl env c db) k (
          gone,
          omega (arith, first_numbered db.next_room k db.rooms r v e, (step-Keeps fl env db c).2),
        ))
    | inr (r', kept) ↦
        let fate : Fate env c r (some r') =
          subst (Fate env c r) kept (step-Fate fl env k db r e c) in
        let (up, same, owner) = Fate-rank env c r r' fate in
        elim (run-rank h (step fl env c db) k r' ((step-Keeps fl env db c).0 v) kept) [
          | inl gone ↦ inl gone
          | inr (x, found, later, id_kept, owner_kept) ↦
              inr (x, found, omega arith, id_kept ∙ same, owner_kept ∙ owner)
        ]
  ]

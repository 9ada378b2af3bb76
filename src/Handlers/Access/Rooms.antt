-- ===== src/Handlers/Access/Rooms.antt =====
-- server/src/main.cpp: what the handlers of rooms may change.
use network_final_project.Base.{ℕ, ◌≡◌, refl, true, arith, ◌==◌}
use network_final_project.Base.Int.{ℤ, pos, negsuc}
use network_final_project.Codec.Json.{JsonApi}
use network_final_project.Codec.Message.{Message}
use network_final_project.Db.{Db, Floats}
use network_final_project.Db.Env.{Env}
use network_final_project.Room.Lifecycle.{list_rooms}
use network_final_project.Room.Reports.{get_room_results}
use network_final_project.Room.Reports.Details.{get_room_details}
use network_final_project.Room.Calls.{creates, joins, starts, deletes, finishes, step}
use network_final_project.Handlers.{JsonData, Handling, call, call_or, read, require, pure, ◌>>=◌}
use network_final_project.Handlers.Rooms.{
  read_settings, create_room_request, list_rooms_request, join_room_request, start_exam_request,
  given_room, delete_room_at, delete_room_request, finish_room_at, finish_room_request,
  room_details_request, room_results_request,
}
use network_final_project.Handlers.Access.{
  Acts, stays, Acts-pure, Acts-read, Acts-require, Acts-positive, Acts-quiet, Acts-call, pure-same,
  Verdict, authorised-Verdict,
}

self : (n : ℕ) → (n == n) ≡ true
self n = ground arith

module _ {J D : Type 0} (js : JsonApi J) (jd : JsonData J D) (env : ℕ → Env) where
  read_settings-same : (d : J) (db : Db D) → (read_settings js jd env d db).1 ≡ db
  unfolding read_settings read pure ◌>>=◌
  read_settings-same d db = ground arith

  given_room-same : (d : J) (db : Db D) → (given_room js jd env d db).1 ≡ db
  unfolding given_room require read ◌>>=◌
  given_room-same d db = ground arith

-- The two calls at an int: a negative id changes nothing.
module _ {D B : Type 0} {fl : Floats D} {env : ℕ → Env} (uid : ℕ) where
  delete_room_call :
      (z : ℤ) (db : Db D) (k : Unit {0} → Handling (Db D) B)
      → ((a : Unit {0}) (db' : Db D) → (k a db').1 ≡ db')
      → Acts fl env uid db ((call "DELETE_FAILED" (delete_room_at (env 1) z uid) >>= k) db).1
  delete_room_call (pos rid) db k h =
      Acts-call _ _ _ (deletes rid uid) 1 (self uid) (unfold step in refl) h
  delete_room_call (negsuc n) db k h =
      Acts-quiet _ _ (unfold call in ground arith) λ a e. stays (h a db)

  finish_room_call :
      (z : ℤ) (db : Db D) (k : Unit {0} → Handling (Db D) B)
      → ((a : Unit {0}) (db' : Db D) → (k a db').1 ≡ db')
      → Acts fl env uid db ((call "FINISH_FAILED" (finish_room_at (env 1) z uid) >>= k) db).1
  finish_room_call (pos rid) db k h =
      Acts-call _ _ _ (finishes rid uid) 1 (self uid) (unfold step in refl) h
  finish_room_call (negsuc n) db k h =
      Acts-quiet _ _ (unfold call in ground arith) λ a e. stays (h a db)

module _ {J D : Type 0} (js : JsonApi J) (jd : JsonData J D) (fl : Floats D) (env : ℕ → Env)
    (req : Message J) (db : Db D) where
  pub create_room_request-Verdict :
      Verdict fl env req.session_id db (create_room_request js jd env req db)
  unfolding create_room_request
  create_room_request-Verdict = authorised-Verdict env req db _ λ s db'.
      Acts-require _ _ _ _ λ given.
        Acts-quiet _ _ (read_settings-same js jd env req.payload db') λ settings e.
          Acts-read _ _ λ name. Acts-read _ _ λ description. Acts-read _ _ λ pass.
            Acts-call _ _ _ (creates s.user_id name description pass settings) 1 (self s.user_id)
              (unfold step in refl) (λ a d. pure-same _ d)

  pub list_rooms_request-Verdict :
      Verdict fl env req.session_id db (list_rooms_request js jd env req db)
  unfolding list_rooms_request
  list_rooms_request-Verdict =
      authorised-Verdict env req db _
        λ s db'. Acts-quiet _ _ (unfold call_or list_rooms in ground arith) λ rooms e. Acts-pure _

  pub join_room_request-Verdict :
      Verdict fl env req.session_id db (join_room_request js jd env req db)
  unfolding join_room_request
  join_room_request-Verdict = authorised-Verdict env req db _ λ s db'. Acts-read _ _ λ given.
      Acts-read _ _ λ pass. Acts-positive _ _ _ λ rid.
        Acts-call _ _ _ (joins rid s.user_id pass) 1 (self s.user_id) (unfold step in refl)
          (λ a d. pure-same _ d)

  pub start_exam_request-Verdict :
      Verdict fl env req.session_id db (start_exam_request js jd env req db)
  unfolding start_exam_request
  start_exam_request-Verdict = authorised-Verdict env req db _ λ s db'. Acts-read _ _ λ given.
      Acts-positive _ _ _ λ rid.
        Acts-call _ _ _ (starts rid s.user_id) 1 (self s.user_id) (unfold step in refl)
          (λ a d. pure-same _ d)

  pub delete_room_request-Verdict :
      Verdict fl env req.session_id db (delete_room_request js jd env req db)
  unfolding delete_room_request
  delete_room_request-Verdict = authorised-Verdict env req db _ λ s db'.
      Acts-quiet _ _ (given_room-same js jd env req.payload db')
        λ z e. delete_room_call s.user_id z db' _ (λ a d. pure-same _ d)

  pub finish_room_request-Verdict :
      Verdict fl env req.session_id db (finish_room_request js jd env req db)
  unfolding finish_room_request
  finish_room_request-Verdict = authorised-Verdict env req db _ λ s db'.
      Acts-quiet _ _ (given_room-same js jd env req.payload db')
        λ z e. finish_room_call s.user_id z db' _ (λ a d. pure-same _ d)

  pub room_details_request-Verdict :
      Verdict fl env req.session_id db (room_details_request js jd env req db)
  unfolding room_details_request
  room_details_request-Verdict = authorised-Verdict env req db _ λ s db'. Acts-read _ _ λ given.
      Acts-positive _ _ _ λ rid.
        Acts-quiet _ _ (unfold call get_room_details in ground arith) λ details e. Acts-pure _

  pub room_results_request-Verdict :
      Verdict fl env req.session_id db (room_results_request js jd env fl req db)
  unfolding room_results_request
  room_results_request-Verdict = authorised-Verdict env req db _ λ s db'. Acts-read _ _ λ given.
      Acts-positive _ _ _ λ rid.
        Acts-quiet _ _ (unfold call get_room_results in ground arith) λ results e. Acts-pure _

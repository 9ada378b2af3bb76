-- ===== src/Handlers/Rooms.antt =====
-- server/src/main.cpp: the handlers of rooms.
use network_final_project.Base.{ℕ, String, ◌&&◌, Option, none, some, [], ◌∷◌, map, if◌then◌else◌}
use network_final_project.Base.Int.{ℤ, pos, negsuc, scale}
use network_final_project.Base.Action.{Action, fail, ◌>>◌ as ◌then_do◌}
use network_final_project.Codec.Json.{JsonApi}
use network_final_project.Codec.Message.{Message}
use network_final_project.Db.{Db, Floats, ParticipantStatus, ready, in_exam, submitted}
use network_final_project.Db.Env.{Env, opened, prepare, select_creator}
use network_final_project.Room.{RoomSettings, RoomInfo, status_text}
use network_final_project.Room.Lifecycle.{
  create_room, list_rooms, join_room, start_room, delete_room, finish_room,
}
use network_final_project.Room.Reports.{RoomResultRow, get_room_results}
use network_final_project.Room.Reports.Details.{RoomParticipant, get_room_details}
use network_final_project.Handlers.{
  JsonData, Handling, ◌>>=◌, ◌>>◌, pure, call, call_or, read, require, positive, Reply, fields,
  of_id, replies, minus_one, authorised,
}

-- `delete_room` and `finish_room` at an int, which their handlers do not check: the keys of the table
-- are positive, so that the SELECT finds no room at a negative one.
abbrev no_room : {D : Type 0} → Env → Action (Db D) (Unit {0})
no_room env = opened env then_do prepare env select_creator then_do fail "room not found"

abbrev pub delete_room_at : {D : Type 0} → Env → ℤ → ℕ → Action (Db D) (Unit {0})
delete_room_at env (pos room_id) user_id = delete_room env room_id user_id
delete_room_at env (negsuc n) user_id = no_room env

abbrev pub finish_room_at : {D : Type 0} → Env → ℤ → ℕ → Action (Db D) (Unit {0})
finish_room_at env (pos room_id) user_id = finish_room env room_id user_id
finish_room_at env (negsuc n) user_id = no_room env

-- The texts of the CHECK on room_participants.status.
abbrev participant_text : ParticipantStatus → String
participant_text ready = "READY"
participant_text in_exam = "IN_EXAM"
participant_text submitted = "SUBMITTED"

module _ {J D : Type 0} (js : JsonApi J) (jd : JsonData J D) (env : ℕ → Env) where
  unfoldable pub read_settings : J → Handling (Db D) RoomSettings
  read_settings d = do
    minutes ← read (jd.value_int d "duration_minutes" (pos 0))
    let qs = js.get d "question_settings"
    total ← read (jd.value_int qs "total_questions" (pos 10))
    diff ← read (jd.value_json qs "difficulty_distribution" js.object)
    easy ← read (jd.value_int diff "easy" (pos 3))
    medium ← read (jd.value_int diff "medium" (pos 4))
    hard ← read (jd.value_int diff "hard" (pos 3))
    pure (record {
      total_questions = total;
      duration_seconds = scale 60 minutes;
      easy = easy;
      medium = medium;
      hard = hard;
    })

  unfoldable pub create_room_request : Message J → Handling (Db D) (Reply J)
  create_room_request req = do
    session ← authorised env req
    let d = req.payload
    require
        (js.contains d "room_name"
          && (js.contains d "duration_minutes" && js.contains d "question_settings"))
        "INVALID_REQUEST" "Missing room fields"
    settings ← read_settings d
    room_name ← read (jd.value_text d "room_name" "")
    description ← read (jd.value_text d "description" "")
    room_pass ← read (jd.value_text d "room_pass" "")
    room ←
        call "CREATE_FAILED"
          (create_room (env 1) session.user_id room_name description room_pass settings)
    pure (
        replies js jd (
          ("room_id", of_id js jd room.id)
          ∷ ("room_code", js.of_string room.code)
          ∷ ("status", js.of_string (status_text room.status))
          ∷ ("duration_seconds", jd.of_int room.duration_seconds)
          ∷ []))

  -- A filter that is no text is ignored.
  abbrev status_filter : J → Option String
  status_filter d =
      if js.contains d "filter" && js.contains (js.get d "filter") "status"
      then (let s = js.get (js.get d "filter") "status" in
          if js.is_string s then some (js.to_string s) else none)
      else none

  unfoldable pub room_json : RoomInfo → J
  room_json r = fields js jd (
      ("room_id", of_id js jd r.id)
      ∷ ("room_code", js.of_string r.code)
      ∷ ("room_name", js.of_string r.name)
      ∷ ("status", js.of_string (status_text r.status))
      ∷ ("duration_seconds", jd.of_int r.duration_seconds)
      ∷ ("creator_id", of_id js jd r.creator_id)
      ∷ ("creator_name", js.of_string r.creator_name)
      ∷ ("participant_count", of_id js jd r.participant_count)
      ∷ ("started_at", js.of_unsigned r.started_at)
      ∷ [])

  -- The error of list_rooms is not looked at: a failure answers with no rooms.
  unfoldable pub list_rooms_request : Message J → Handling (Db D) (Reply J)
  list_rooms_request req = do
    session ← authorised env req
    rooms ← call_or [] (list_rooms (env 1) (status_filter req.payload))
    pure (replies js jd (("rooms", jd.of_list (map room_json rooms)) ∷ []))

  unfoldable pub join_room_request : Message J → Handling (Db D) (Reply J)
  join_room_request req = do
    session ← authorised env req
    given ← read (jd.value_int req.payload "room_id" minus_one)
    room_pass ← read (jd.value_text req.payload "room_pass" "")
    room_id ← positive given "room_id required"
    call "JOIN_FAILED" (join_room (env 1) room_id session.user_id room_pass)
    pure (
        replies js jd
          (("room_id", of_id js jd room_id) ∷ ("user_id", of_id js jd session.user_id) ∷ []))

  unfoldable pub start_exam_request : Message J → Handling (Db D) (Reply J)
  start_exam_request req = do
    session ← authorised env req
    given ← read (jd.value_int req.payload "room_id" minus_one)
    room_id ← positive given "room_id required"
    call "START_FAILED" (start_room (env 1) room_id session.user_id)
    pure (
        replies js jd
          (("room_id", of_id js jd room_id) ∷ ("status", js.of_string "IN_PROGRESS") ∷ []))

  -- The check and the read of the room's id in DELETE_ROOM and FINISH_ROOM.
  unfoldable pub given_room : J → Handling (Db D) ℤ
  given_room d = do
    require (js.contains d "room_id" && jd.is_number (js.get d "room_id")) "INVALID_REQUEST"
        "room_id is required and must be a number"
    read (jd.get_int (js.get d "room_id"))

  unfoldable pub delete_room_request : Message J → Handling (Db D) (Reply J)
  unfolding given_room
  delete_room_request req = do
    session ← authorised env req
    room_id ← given_room req.payload
    call "DELETE_FAILED" (delete_room_at (env 1) room_id session.user_id)
    pure (
        replies js jd (
          ("message", js.of_string "room deleted successfully")
          ∷ ("room_id", jd.of_int room_id)
          ∷ []))

  unfoldable pub finish_room_request : Message J → Handling (Db D) (Reply J)
  unfolding given_room
  finish_room_request req = do
    session ← authorised env req
    room_id ← given_room req.payload
    call "FINISH_FAILED" (finish_room_at (env 1) room_id session.user_id)
    pure (
        replies js jd (
          ("message", js.of_string "room finished successfully")
          ∷ ("room_id", jd.of_int room_id)
          ∷ []))

  unfoldable pub participant_json : RoomParticipant → J
  participant_json p = fields js jd (
      ("user_id", of_id js jd p.user_id)
      ∷ ("username", js.of_string p.username)
      ∷ ("full_name", js.of_string p.full_name)
      ∷ ("status", js.of_string (participant_text p.status))
      ∷ ("joined_at", js.of_unsigned p.joined_at)
      ∷ [])

  unfoldable pub room_details_request : Message J → Handling (Db D) (Reply J)
  room_details_request req = do
    session ← authorised env req
    given ← read (jd.value_int req.payload "room_id" minus_one)
    room_id ← positive given "room_id required"
    details ← call "DETAILS_FAILED" (get_room_details (env 1) room_id)
    let info = details.info
    pure (
        replies js jd (
          ("room_id", of_id js jd info.id)
          ∷ ("room_code", js.of_string info.code)
          ∷ ("room_name", js.of_string info.name)
          ∷ ("description", js.of_string info.description)
          ∷ ("duration_seconds", jd.of_int info.duration_seconds)
          ∷ ("status", js.of_string (status_text info.status))
          ∷ ("creator_id", of_id js jd info.creator_id)
          ∷ ("creator_name", js.of_string details.creator_name)
          ∷ ("participant_count", of_id js jd info.participant_count)
          ∷ ("participants", jd.of_list (map participant_json details.participants))
          ∷ []))

  unfoldable pub result_json : RoomResultRow D → J
  result_json r = fields js jd (
      ("user_id", of_id js jd r.user_id)
      ∷ ("username", js.of_string r.username)
      ∷ ("full_name", js.of_string r.full_name)
      ∷ ("score", jd.of_double r.score)
      ∷ ("correct", of_id js jd r.correct)
      ∷ ("total", of_id js jd r.total)
      ∷ ("submitted_at", js.of_unsigned r.submitted_at)
      ∷ [])

  unfoldable pub room_results_request : Floats D → Message J → Handling (Db D) (Reply J)
  room_results_request fl req = do
    session ← authorised env req
    given ← read (jd.value_int req.payload "room_id" minus_one)
    room_id ← positive given "room_id required"
    res ← call "RESULT_FAILED" (get_room_results fl (env 1) room_id)
    pure (
        replies js jd (
          ("participants", jd.of_list (map result_json res.rows))
          ∷ (
            "statistics",
            fields js jd (
                ("average_score", jd.of_double res.average_score)
                ∷ ("highest_score", jd.of_double res.highest_score)
                ∷ ("lowest_score", jd.of_double res.lowest_score)
                ∷ ("pass_rate", jd.of_double res.pass_rate)
                ∷ []),
          )
          ∷ []))

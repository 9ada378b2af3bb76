-- ===== src/Client/Window/Rooms.antt =====
-- client/src/ui.cpp, server/src/server.cpp and server/src/main.cpp: from the buttons Create and Join
-- of the lobby to the store of the server.
use network_final_project.Base.{ℕ, ◌≡◌, String, true, none, [], ◌∷◌, arith}
use network_final_project.Base.Int.{pos, pos_part, scale}
use network_final_project.Base.Action.{ok}
use network_final_project.Codec.Json.{JsonApi, JsonLaws}
use network_final_project.Codec.Json.Build.{lookup, built}
use network_final_project.Db.{Db}
use network_final_project.Db.Env.{Env}
use network_final_project.Auth.{SessionInfo, validate}
use network_final_project.Room.{RoomSettings}
use network_final_project.Room.Lifecycle.{create_room, join_room}
use network_final_project.Handlers.{
  JsonData, value, ◌>>=◌ as ◌then_handle◌, pure as handlers_pure, minus_one, fields, call, read,
  require,
}
use network_final_project.Handlers.Rooms.{read_settings, create_room_request, join_room_request}
use network_final_project.Handlers.Fields.{
  IsInt, scale-IsInt, DataLaws, given, lookup_held, lookup-fields, fields-is_object,
}
use network_final_project.Client.State.{RoomLine, ClientState}
use network_final_project.Client.Window.Buttons.{
  create, join, pressed, room_data, data_of, typed, request_of, create_data, settings_of,
}
use network_final_project.Client.Window.Answers.{IsId, positive_lem}

-- The settings that stand in the fields of the panel.
abbrev pub entered : ClientState → RoomSettings
entered st = record {
  total_questions = st.new_room_q_total;
  duration_seconds = scale 60 st.new_room_duration_min;
  easy = st.new_room_easy;
  medium = st.new_room_medium;
  hard = st.new_room_hard;
}

abbrev pub AllInts : ClientState → Type 0
AllInts st =
    IsInt st.new_room_q_total
    × IsInt (scale 60 st.new_room_duration_min)
    × IsInt st.new_room_easy
    × IsInt st.new_room_medium
    × IsInt st.new_room_hard

module _ {J D : Type 0} (js : JsonApi J) (laws : JsonLaws js) (jd : JsonData J D)
    (data_laws : DataLaws js jd) where
  read_settings-entered :
      (env : ℕ → Env) (st : ClientState) (db : Db D)
      → AllInts st
      → read_settings js jd env (create_data js jd st) db ≡ (value (entered st), db)
  unfolding read_settings create_data settings_of read handlers_pure ◌then_handle◌
  read_settings-entered env st db fit =
      let split = fields js jd (
        ("easy", jd.of_int st.new_room_easy)
        ∷ ("medium", jd.of_int st.new_room_medium)
        ∷ ("hard", jd.of_int st.new_room_hard)
        ∷ []) in
      let settings = settings_of js jd st in
      let d = create_data js jd st in
      ground (
        arith,
        data_laws.value_int_lem d "duration_minutes" (pos 0) st.new_room_duration_min
            (scale-IsInt st.new_room_duration_min fit.1)
            (lookup-fields js jd laws _ "duration_minutes"),
        (lookup_held js jd d "question_settings" settings
            (lookup-fields js jd laws _ "question_settings")).1,
        data_laws.value_int_lem settings "total_questions" (pos 10) st.new_room_q_total fit.0
            (lookup-fields js jd laws _ "total_questions"),
        data_laws.value_json_lem settings "difficulty_distribution" js.object split
            (lookup-fields js jd laws _ "difficulty_distribution"),
        data_laws.value_int_lem split "easy" (pos 3) st.new_room_easy fit.2
            (lookup-fields js jd laws _ "easy"),
        data_laws.value_int_lem split "medium" (pos 4) st.new_room_medium fit.3
            (lookup-fields js jd laws _ "medium"),
        data_laws.value_int_lem split "hard" (pos 3) st.new_room_hard fit.4
            (lookup-fields js jd laws _ "hard"),
      )

  create_is_object : (st : ClientState) → js.is_object (create_data js jd st) ≡ true
  unfolding create_data
  create_is_object st = fields-is_object js jd laws _

  held_in_create :
      (st : ClientState) (key : String)
      → lookup js (create_data js jd st) key
        ≡ built js none key (
            given js jd (
              ("room_name", js.of_string st.new_room_name)
              ∷ ("description", js.of_string st.new_room_desc)
              ∷ ("duration_minutes", jd.of_int st.new_room_duration_min)
              ∷ ("question_settings", settings_of js jd st)
              ∷ []))
  unfolding create_data settings_of
  held_in_create st key = lookup-fields js jd laws _ key

  -- When the JSON library behaves as documented, the user is logged in with the token of the window
  -- and the numbers of its panel, the seconds included, are ints: what Create leaves in the server's
  -- store is what create_room leaves for that user with the name, the description and the settings
  -- that are entered, 60 seconds for each minute and no password.
  pub create_room_request-pressed :
      (env : ℕ → Env) (st : ClientState) (session : SessionInfo) (db db' : Db D)
      → validate (env 0) st.token db ≡ (ok session, db')
      → AllInts st
      → (create_room_request js jd env (pressed js jd create st) db).1
        ≡ (create_room
            (env 1)
            session.user_id
            st.new_room_name
            st.new_room_desc
            ""
            (entered st)
            db').1
  unfolding create_room_request call require read handlers_pure ◌then_handle◌ data_of typed
      request_of
  create_room_request-pressed env st session db db' valid fit =
      let d = create_data js jd st in
      ground (
        arith,
        valid,
        read_settings-entered env st db' fit,
        (lookup_held js jd d "room_name" _ (held_in_create st "room_name")).0,
        (lookup_held js jd d "duration_minutes" _ (held_in_create st "duration_minutes")).0,
        (lookup_held js jd d "question_settings" _ (held_in_create st "question_settings")).0,
        data_laws.value_text_lem d "room_name" "" st.new_room_name (held_in_create st "room_name"),
        data_laws.value_text_lem d "description" "" st.new_room_desc
            (held_in_create st "description"),
        data_laws.value_text_default d "room_pass" "" (create_is_object st)
            (held_in_create st "room_pass"),
      )

  -- When the JSON library behaves as documented, the user is logged in with the token of the window
  -- and the room is shown with an id of the table that an int holds: what Join leaves in the
  -- server's store is what join_room leaves for that user and that room, with no password.
  pub join_room_request-pressed :
      (env : ℕ → Env) (line : RoomLine) (st : ClientState) (session : SessionInfo) (db db' : Db D)
      → validate (env 0) st.token db ≡ (ok session, db')
      → IsId line.room_id
      → (join_room_request js jd env (pressed js jd (join line) st) db).1
        ≡ (join_room (env 1) (pos_part line.room_id) session.user_id "" db').1
  unfolding join_room_request call require read handlers_pure ◌then_handle◌ data_of typed request_of
      room_data
  join_room_request-pressed env line st session db db' valid h =
      let d = room_data js jd line.room_id in
      ground (
        arith,
        valid,
        data_laws.value_int_lem d "room_id" minus_one line.room_id h.1
            (lookup-fields js jd laws _ "room_id"),
        data_laws.value_text_default d "room_pass" "" (fields-is_object js jd laws _)
            (lookup-fields js jd laws _ "room_pass"),
        positive_lem js laws jd data_laws line.room_id "room_id required" db' h,
      )

-- ===== src/Client/Window/Lobby.antt =====
-- client/src/ui.cpp, server/src/server.cpp and server/src/main.cpp: from the button Refresh of the lobby over
-- the server's answer to what the window shows.
use network_final_project.Base.{
  ℕ, ◌<◌, ◌^◌, ◌≡◌, refl, ◌∙◌, sym, ap, some, List, [], ◌∷◌, ◌++◌, map, arith,
}
use mathlib.Core.List.{append-nil, append_assoc}
use network_final_project.Base.Int.{pos}
use network_final_project.Base.Action.{ok}
use network_final_project.Codec.Json.{JsonApi, JsonLaws}
use network_final_project.Db.{Db, Floats}
use network_final_project.Db.Env.{Env}
use network_final_project.Auth.{SessionInfo, validate}
use network_final_project.Room.{RoomInfo, status_text}
use network_final_project.Room.Lifecycle.{list_rooms}
use network_final_project.Handlers.{
  JsonData, value, ◌>>=◌ as ◌then_handle◌, pure as handlers_pure, minus_one, fields, call, call_or,
}
use network_final_project.Handlers.Rooms.{room_json, list_rooms_request}
use network_final_project.Handlers.Fields.{IsInt, DataLaws, lookup_held, lookup-fields}
use network_final_project.Server.{
  answer, complete, make_success, find_handler, register_handler, main_handlers,
}
use network_final_project.Client.State.{RoomLine, ClientState}
use network_final_project.Client.Window.{JsonView, read_line, push_lines, show_rooms, handle_event}
use network_final_project.Client.Window.Buttons.{
  refresh, pressed, action_of, data_of, typed, request_of, refresh_data,
}
use network_final_project.Server.Answers.{answer-value}

-- A room of the server's as the window shows it.
abbrev pub line_of : RoomInfo → RoomLine
line_of r = record {
  room_id = pos r.id;
  room_code = r.code;
  room_name = r.name;
  status = status_text r.status;
  duration_seconds = r.duration_seconds;
}

abbrev pub AllFit : List RoomInfo → Type 0
AllFit [] = Unit
AllFit (r ∷ rs) = (r.id < 2 ^ 31) × IsInt r.duration_seconds × AllFit rs

rooms_handler :
    {J D : Type 0} (js : JsonApi J) (jd : JsonData J D) (fl : Floats D)
    → find_handler "LIST_ROOMS" (main_handlers js jd fl) ≡ some (list_rooms_request js jd)
unfolding find_handler main_handlers register_handler
rooms_handler js jd fl = refl

module _ {J D : Type 0} (js : JsonApi J) (laws : JsonLaws js) (jd : JsonData J D)
    (data_laws : DataLaws js jd) (jv : JsonView J) (env : ℕ → Env) where
  read_line-room_json :
      (r : RoomInfo) (st : ClientState)
      → r.id < 2 ^ 31
      → IsInt r.duration_seconds
      → read_line js jd jv (room_json js jd env r) st ≡ (ok (line_of r), st)
  unfolding read_line room_json
  read_line-room_json r st fits seconds =
      let j = room_json js jd env r in
      ground (
        arith,
        data_laws.value_int_lem j "room_id" minus_one (pos r.id) fits
            (lookup-fields js jd laws _ "room_id"),
        data_laws.value_text_lem j "room_code" "" r.code (lookup-fields js jd laws _ "room_code"),
        data_laws.value_text_lem j "room_name" "" r.name (lookup-fields js jd laws _ "room_name"),
        data_laws.value_text_lem j "status" "" (status_text r.status)
            (lookup-fields js jd laws _ "status"),
        data_laws.value_int_lem j "duration_seconds" (pos 0) r.duration_seconds seconds
            (lookup-fields js jd laws _ "duration_seconds"),
      )

  push_lines-room_json :
      (rs : List RoomInfo) (st : ClientState)
      → AllFit rs
      → push_lines js jd jv (map (room_json js jd env) rs) st
        ≡ (ok tt, record st { rooms = st.rooms ++ map line_of rs })
  unfolding push_lines
  push_lines-room_json [] st all =
      ap (λ lines. (ok tt, record st { rooms = lines })) (sym (append-nil st.rooms))
  push_lines-room_json (r ∷ rs) st all =
      let st' = record st { rooms = st.rooms ++ line_of r ∷ [] } in
      ground (
        arith,
        read_line-room_json r st all.0 all.1,
        push_lines-room_json rs st' all.2,
        append_assoc st.rooms (line_of r ∷ []) (map line_of rs),
      )

  -- The data of the answer to LIST_ROOMS.
  abbrev lobby_data : List RoomInfo → J
  lobby_data rs = fields js jd (("rooms", jd.of_list (map (room_json js jd env) rs)) ∷ [])

  show_rooms-lobby_data :
      (rs : List RoomInfo) (st : ClientState)
      → AllFit rs
      → show_rooms js jd jv (lobby_data rs) st
        ≡ (ok tt, record st { rooms = map line_of rs; last_errors = "" })
  unfolding show_rooms
  show_rooms-lobby_data rs st all =
      let rows = map (room_json js jd env) rs in
      ground (
        arith,
        (lookup_held js jd (lobby_data rs) "rooms" (jd.of_list rows)
            (lookup-fields js jd laws _ "rooms")).1,
        data_laws.elements_lem rows,
        push_lines-room_json rs (record st { rooms = [] }) all,
      )

  list_rooms_request-pressed :
      (st : ClientState) (session : SessionInfo) (rs : List RoomInfo) (db db' db'' : Db D)
      → validate (env 0) st.token db ≡ (ok session, db')
      → list_rooms (env 1) (some "WAITING") db' ≡ (ok rs, db'')
      → list_rooms_request js jd env (pressed js jd refresh st) db
        ≡ (value (record { session_id = ""; payload = lobby_data rs }), db'')
  unfolding list_rooms_request call call_or handlers_pure ◌then_handle◌ data_of typed request_of
      refresh_data
  list_rooms_request-pressed st session rs db db' db'' valid found =
      let filter = fields js jd (("status", js.of_string "WAITING") ∷ []) in
      let (has_filter, the_filter) =
        lookup_held js jd (refresh_data js jd) "filter" filter
          (lookup-fields js jd laws _ "filter") in
      let (has_status, the_status) =
        lookup_held js jd filter "status" (js.of_string "WAITING")
          (lookup-fields js jd laws _ "status") in
      ground (
        arith,
        valid,
        found,
        has_filter,
        the_filter,
        has_status,
        the_status,
        laws.string_lem "WAITING",
        laws.to_string-of_string "WAITING",
      )

  module _ (fl : Floats D) (clock : ℕ → ℕ) where
    -- When the JSON library behaves as documented, the user is logged in with the token of the window
    -- and the ids and durations of the rooms are ints: after the server's answer to Refresh the window
    -- shows exactly the rooms that list_rooms gives for the status WAITING, in this order; it shows
    -- no error, and the rest of its state is as before.
    pub handle_event-refresh :
        (st : ClientState) (session : SessionInfo) (rs : List RoomInfo) (db db' db'' : Db D)
        → validate (env 0) st.token db ≡ (ok session, db')
        → list_rooms (env 1) (some "WAITING") db' ≡ (ok rs, db'')
        → AllFit rs
        → handle_event js jd jv
            (answer js (main_handlers js jd fl) env clock (pressed js jd refresh st) db).0
            st
          ≡ (ok tt, record st { rooms = map line_of rs; last_errors = "" })
    unfolding handle_event complete make_success typed request_of action_of
    handle_event-refresh st session rs db db' db'' valid found all =
        ap (λ a. handle_event js jd jv a.0 st)
          (answer-value js env clock (main_handlers js jd fl) (list_rooms_request js jd)
            (pressed js jd refresh st) db db'' _ (rooms_handler js jd fl)
            (list_rooms_request-pressed st session rs db db' db'' valid found))
        ∙ show_rooms-lobby_data rs st all

-- ===== src/Tests/Lobbies.antt =====
-- Runs of the lobby of client/src/ui.cpp and of its login against the server.
use network_final_project.Base.{ℕ, ◌≤◌, ◌≡◌, refl, inl, map, some, List, [], ◌∷◌, arith}
use network_final_project.Base.Int.{pos}
use network_final_project.Base.Action.{ok}
use network_final_project.Codec.Message.{Message, response, error}
use network_final_project.Db.{Db, in_progress, waiting}
use network_final_project.Db.Env.{Env, IsUp}
use network_final_project.Auth.{
  SessionInfo, validate, login as logged_in, session_user, insert_session_row, random_token,
}
use network_final_project.Crypto.{hash_password, verify_password, to_hex, hex_from, hex_digit}
use network_final_project.Room.{RoomInfo, status_text}
use network_final_project.Room.Lifecycle.{create_room, list_rooms, room_info}
use network_final_project.Handlers.Rooms.{create_room_request}
use network_final_project.Server.{answer, main_handlers}
use network_final_project.Client.State.{initial_state}
use network_final_project.Client.Window.{handle_event}
use network_final_project.Client.Window.Buttons.{Button, login, create, refresh, pressed, typed}
use network_final_project.Client.Window.Rooms.{entered, create_room_request-pressed}
use network_final_project.Client.Window.Lobby.{line_of, handle_event-refresh}
use network_final_project.Client.Window.Events.{SameUser, handle_event-SameUser}
use network_final_project.Client.Window.Login.{with_session, handle_event-login}
use network_final_project.Tests.{at_time, whole_numbers}
use network_final_project.Tests.Accounts.{ann_session, ann_db}
use network_final_project.Tests.Rooms.{lobby}
use network_final_project.Tests.Frames.{toy, login_json}
use network_final_project.Tests.Toys.{Json, empty, json_of-JsonLaws}
use network_final_project.Tests.Values.{toy_data, toy_view}
use network_final_project.Tests.Windows.{
  at_120, ticks, toy-DataLaws, begun_db, ann_window, ann_is_known,
}

abbrev at_100 : ℕ → Env
at_100 n = at_time 100

-- The session of a login over the server, for an hour.
abbrev long_session : SessionInfo
long_session = record ann_session { expires_at = 3700 }

abbrev long_db : Db ℕ
long_db = (logged_in (at_time 100) "ann" "secret" 3600 ann_db).1

long_login : logged_in (at_time 100) "ann" "secret" 3600 ann_db ≡ (ok long_session, long_db)
unfolding logged_in insert_session_row verify_password hash_password to_hex hex_from hex_digit
    random_token
long_login = refl

-- A room that waits beside one that does not.
abbrev waiting_db : Db ℕ
waiting_db = record begun_db {
  rooms =
      record lobby { id = 2; code = "R2"; creator_id = 1 }
      ∷ record lobby { status = in_progress }
      ∷ [];
}

abbrev waiting_rooms : List RoomInfo
waiting_rooms =
    record {
      id = 2;
      code = "R2";
      name = "Quiz";
      description = "";
      duration_seconds = pos 600;
      status = waiting;
      creator_id = 1;
      creator_name = "ann";
      participant_count = 0;
      started_at = 0;
    }
    ∷ []

known_waiting : validate (at_time 120) "6465" waiting_db ≡ (ok ann_session, waiting_db)
unfolding validate session_user
known_waiting = refl

rooms_listed : list_rooms (at_time 120) (some "WAITING") waiting_db ≡ (ok waiting_rooms, waiting_db)
unfolding list_rooms status_text room_info
rooms_listed = refl

abbrev logout_reply : Message Json
logout_reply = record {
  type = response;
  action = "LOGOUT";
  timestamp = 120;
  session_id = "";
  payload = empty;
  status = error;
  error_code = "LOGOUT_FAILED";
  error_message = "Session not found";
}

handle_event-login_example :
    let (resp, after) =
      answer toy
        (main_handlers toy toy_data whole_numbers)
        at_100
        ticks
        (pressed toy toy_data (login "ann" "secret") initial_state)
        ann_db in
    let (shown, st) =
      handle_event toy toy_data toy_view resp (typed (login "ann" "secret") initial_state) in
    (shown ≡ ok tt)
    × (st ≡ with_session long_session (typed (login "ann" "secret") initial_state))
    × ((env : Env) (button : Button)
        → IsUp env
        → env.clock 0 ≤ 3700
        → validate env (pressed toy toy_data button st).session_id after ≡ (ok long_session, after))
handle_event-login_example =
    handle_event-login toy (json_of-JsonLaws login_json) toy_data toy-DataLaws toy_view at_100
      whole_numbers ticks "ann" "secret" initial_state long_session ann_db long_db
      (omega arith, refl, refl, tt) long_login

create_room_request-pressed_example :
    (create_room_request toy toy_data at_120 (pressed toy toy_data create ann_window) begun_db).1
    ≡ (create_room (at_time 120) 1 "Demo room" "Test" "" (entered ann_window) begun_db).1
create_room_request-pressed_example =
    create_room_request-pressed toy (json_of-JsonLaws login_json) toy_data toy-DataLaws at_120
      ann_window ann_session begun_db begun_db ann_is_known
      (omega arith, omega arith, omega arith, omega arith, omega arith)

handle_event-refresh_example :
    handle_event toy toy_data toy_view
      (answer toy
        (main_handlers toy toy_data whole_numbers)
        at_120
        ticks
        (pressed toy toy_data refresh ann_window)
        waiting_db).0
      ann_window
    ≡ (ok tt, record ann_window { rooms = map line_of waiting_rooms; last_errors = "" })
handle_event-refresh_example =
    handle_event-refresh toy (json_of-JsonLaws login_json) toy_data toy-DataLaws toy_view at_120
      whole_numbers ticks ann_window ann_session waiting_rooms waiting_db waiting_db waiting_db
      known_waiting rooms_listed (omega arith, omega arith, tt)

handle_event-SameUser_example :
    SameUser ann_window (handle_event toy toy_data toy_view logout_reply ann_window).1
handle_event-SameUser_example =
    handle_event-SameUser toy toy_data toy_view logout_reply ann_window (inl refl)

-- ===== src/Tests/Accounts.antt =====
-- Runs of server/src/auth.cpp on small databases.
use network_final_project.Base.{
  ℕ, ◌<◌, ◌^◌, ◌≡◌, ◌↔◌, refl, String, some, [], ◌∷◌, true, false, arith, str_eq, if◌then◌else◌,
  eq_iff,
}
use Prim.Native.String
use network_final_project.Base.Action.{ok, err}
use network_final_project.Db.{Db, UserRow, SessionRow}
use network_final_project.Crypto.{verify_password, hash_password, to_hex, hex_from, hex_digit}
use network_final_project.Crypto.Hex.{verify_password_iff}
use network_final_project.Auth.{
  SessionInfo, register_user, login, logout, validate, insert_user_row, insert_session_row,
  random_token, session_user,
}
use network_final_project.Auth.Accounts.{IsValid, register_user-IsValid, login-register_user}
use network_final_project.Auth.Sessions.{validate-login, validate-logout, validate_expired}
use network_final_project.Tests.{at_time, at_time-IsUp, empty_db}

-- The hash of "quiz_saltsecret" is 42, which is 2a in hexadecimal.
abbrev ann : UserRow
ann = record {
  id = 1;
  username = "ann";
  pass_hash = "2a";
  role = "STUDENT";
  full_name = "Ann";
  email = "";
  created_at = 100;
}

abbrev pub ann_db : Db ℕ
ann_db = record empty_db { users = ann ∷ []; next_user = 2 }

abbrev pub ann_session : SessionInfo
ann_session = record {
  user_id = 1;
  username = "ann";
  role = "STUDENT";
  token = "6465";
  expires_at = 160;
}

abbrev session_row : SessionRow
session_row = record { user_id = 1; token = "6465"; expires_at = 160; created_at = 100 }

abbrev pub ann_logged_in : Db ℕ
ann_logged_in = record ann_db { sessions = session_row ∷ [] }

abbrev two_hashes : String → ℕ
two_hashes s = if str_eq s "quiz_saltsecret" then 42 else 7

two_hashes-lt : (s : String) → two_hashes s < 2 ^ 64
two_hashes-lt s = ground arith

verify_password_example :
    (verify_password two_hashes "secret" (hash_password two_hashes "secret" "quiz_salt") "quiz_salt"
      ≡ true)
    ↔ (two_hashes (String.◌++◌ "quiz_salt" "secret")
        ≡ two_hashes (String.◌++◌ "quiz_salt" "secret"))
verify_password_example = verify_password_iff two_hashes "quiz_salt" "secret" "secret" two_hashes-lt

register_user-IsValid_example :
    IsValid (register_user (at_time 100) "ann" "secret" "Ann" "" "STUDENT" empty_db).1
register_user-IsValid_example =
    register_user-IsValid (at_time 100) "ann" "secret" "Ann" "" "STUDENT" empty_db tt

ann_known :
    register_user (at_time 100) "ann" "other" "" "" "STUDENT" ann_db
    ≡ (err "UNIQUE constraint failed: users.username", ann_db)
unfolding register_user insert_user_row
ann_known = refl

ann_registered :
    register_user (at_time 100) "ann" "secret" "Ann" "" "STUDENT" empty_db ≡ (ok 1, ann_db)
unfolding register_user insert_user_row hash_password to_hex hex_from hex_digit
ann_registered = refl

login-register_user_example :
    (login (at_time 100) "ann" "secret" 60 ann_db).0
    ≡ ok (record {
      user_id = 1;
      username = "ann";
      role = "STUDENT";
      token = random_token (at_time 100);
      expires_at = 160;
    })
login-register_user_example =
    login-register_user (at_time 100) (at_time 100) "ann" "secret" "Ann" "" "STUDENT" 60 1 empty_db
      ann_db ann_registered (at_time-IsUp 100) refl refl

pub ann_logs_in : login (at_time 100) "ann" "secret" 60 ann_db ≡ (ok ann_session, ann_logged_in)
unfolding login insert_session_row verify_password hash_password to_hex hex_from hex_digit
    random_token
ann_logs_in = refl

validate-login_example :
    validate (at_time 120) "6465" ann_logged_in ≡ (ok ann_session, ann_logged_in)
validate-login_example =
    validate-login (at_time 100) (at_time 120) "ann" "secret" 60 ann_session ann_db ann_logged_in
      (omega arith, refl, refl, tt) ann_logs_in (at_time-IsUp 120) (omega arith)

validate-logout_example :
    (validate (at_time 120) "6465" (logout (at_time 110) "6465" ann_logged_in).1
      ≡ (err "Session not found", (logout (at_time 110) "6465" ann_logged_in).1))
    × ((validate (at_time 120) "x" (logout (at_time 110) "6465" ann_logged_in).1).0
        ≡ (validate (at_time 120) "x" ann_logged_in).0)
validate-logout_example =
    validate-logout (at_time 110) (at_time 120) "6465" "x" ann_logged_in (at_time-IsUp 110)
      (at_time-IsUp 120) (ground (arith, eq_iff "x" "6465"))

session_found :
    session_user "6465" ann_logged_in.users ann_logged_in.sessions ≡ some (session_row, ann)
unfolding session_user
session_found = refl

validate_expired_example :
    ((validate (at_time 161) "6465" ann_logged_in).0 ≡ err "Session expired")
    × ((validate (at_time 162) "6465" (validate (at_time 161) "6465" ann_logged_in).1).0
        ≡ err "Session not found")
validate_expired_example =
    validate_expired (at_time 161) (at_time 162) "6465" session_row ann ann_logged_in
      (at_time-IsUp 161) (at_time-IsUp 162) session_found (omega arith)

wrong_guess : verify_password (at_time 100).hash "guess" "2a" "quiz_salt" ≡ false
unfolding verify_password hash_password to_hex hex_from hex_digit
wrong_guess = refl

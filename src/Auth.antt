-- ===== src/Auth.antt =====
-- server/src/auth.cpp: accounts and sessions. Each method is an action on the database; `error` is
-- the text of a failure. The mutex is held for the whole of a method, so methods do not interleave.
pub mod Sessions
pub mod Tokens
pub mod Accounts
use Prim.Native.String
use network_final_project.Base.{
  ℕ, suc, ◌+◌, ◌%◌, ◌^◌, String, Bool, true, false, not, ◌&&◌, ◌||◌, Option, none, some, List, [],
  ◌∷◌, ◌++◌, ltb, ◌==◌, str_eq, if◌then◌else◌, first, delete, any, c_str,
}
use network_final_project.Base.Action.{
  Action, Result, ok, err, pure, fail, gets, or_fail, ◌>>=◌, ◌>>◌, refuse_if, modify,
}
use network_final_project.Crypto.{to_hex, hash_password, verify_password, quiz_salt}
use network_final_project.Db.{Db, UserRow, SessionRow}
use network_final_project.Db.Env.{
  Env, Stmt, insert_user, select_user, insert_session, delete_session, select_session,
  delete_expired, or_errmsg, opened, prepare, done,
}

pub record SessionInfo : Type 0 where
  pub user_id : ℕ
  pub username : String
  pub role : String
  pub token : String
  pub expires_at : ℕ

-- `uint64_t` addition.
abbrev pub add_u64 : ℕ → ℕ → ℕ
add_u64 a b = (a + b) % 2 ^ 64

abbrev pub has_username : String → UserRow → Bool
has_username name u = str_eq u.username name

abbrev pub has_id : ℕ → UserRow → Bool
has_id uid u = u.id == uid

abbrev pub has_token : String → SessionRow → Bool
has_token token s = str_eq s.token token

-- `FROM sessions s JOIN users u ON s.user_id = u.id WHERE s.token = ?`, the first row.
unfoldable pub session_user :
    String → List UserRow → List SessionRow → Option (SessionRow × UserRow)
session_user token users [] = none
session_user token users (s ∷ rest) =
    let later = session_user token users rest in
    if has_token token s
    then elim (first (has_id s.user_id) users) [ none ↦ later | some u ↦ some (s, u) ]
    else later

-- The CHECK and UNIQUE constraints of the table `users`.
abbrev pub is_role : String → Bool
is_role role = str_eq role "STUDENT" || str_eq role "ADMIN"

unfoldable pub random_token : Env → String
random_token env = String.◌++◌ (to_hex (env.draw 0)) (to_hex (env.draw 1))

module _ {D : Type 0} (env : Env) where
  unfoldable pub insert_user_row : UserRow → Action (Db D) ℕ
  insert_user_row user = do
    done env insert_user 0
    refuse_if (not (is_role user.role)) "CHECK constraint failed: role IN ('STUDENT', 'ADMIN')"
    known ← gets (λ db. any (has_username user.username) db.users)
    refuse_if known "UNIQUE constraint failed: users.username"
    new_id ← gets (λ db. db.next_user)
    modify λ db. record db {
      users = db.users ++ record user { id = new_id } ∷ [];
      next_user = suc new_id;
    }
    pure new_id

  -- The password's hash is hexadecimal text, and is bound whole.
  unfoldable pub register_user : String → String → String → String → String → Action (Db D) ℕ
  unfolding insert_user_row
  register_user username password full_name email role = do
    opened env
    prepare env insert_user
    insert_user_row (record {
      id = 0;
      username = c_str username;
      pass_hash = hash_password env.hash password quiz_salt;
      role = c_str role;
      full_name = c_str full_name;
      email = c_str email;
      created_at = env.clock 0;
    })

  unfoldable pub insert_session_row : SessionRow → Action (Db D) (Unit {0})
  insert_session_row session = do
    done env insert_session 0
    taken ← gets (λ db. any (has_token session.token) db.sessions)
    refuse_if taken "UNIQUE constraint failed: sessions.token"
    modify λ db. record db { sessions = db.sessions ++ session ∷ [] }

  unfoldable pub login : String → String → ℕ → Action (Db D) SessionInfo
  unfolding insert_session_row
  login username password ttl_seconds = do
    opened env
    prepare env select_user
    user ← or_fail (← gets (λ db. first (has_username (c_str username)) db.users)) "User not found"
    refuse_if (not (verify_password env.hash password user.pass_hash quiz_salt))
        "Invalid credentials"
    let token = random_token env
    let now = env.clock 0
    let expires = add_u64 now ttl_seconds
    prepare env insert_session
    insert_session_row
        (record { user_id = user.id; token = token; expires_at = expires; created_at = now })
    pure (record {
      user_id = user.id;
      username = username;
      role = user.role;
      token = token;
      expires_at = expires;
    })

  -- `DELETE FROM sessions WHERE token = ?`, whose verdict the source ignores.
  abbrev pub delete_token : Stmt → String → Action (Db D) (Unit {0})
  delete_token q token db = elim (env.step q 0) [
    | none ↦ (ok tt, record db { sessions = delete (has_token (c_str token)) db.sessions })
    | some e ↦ (ok tt, db)
  ]

  unfoldable pub logout : String → Action (Db D) (Unit {0})
  logout token = do opened env; prepare env delete_session; delete_token delete_session token

  -- An expired session is removed, if the DELETE can be prepared.
  unfoldable pub expire : String → Action (Db D) SessionInfo
  expire token = do
    elim (env.prepare delete_expired) [
      | none ↦ delete_token delete_expired token
      | some e ↦ pure tt
    ]
    fail "Session expired"

  unfoldable pub validate : String → Action (Db D) SessionInfo
  unfolding expire
  validate token = do
    opened env
    prepare env select_session
    (s, u) ←
        or_fail (← gets (λ db. session_user (c_str token) db.users db.sessions)) "Session not found"
    let now = env.clock 0
    if ltb s.expires_at now
        then expire token
        else pure (record {
          user_id = s.user_id;
          username = u.username;
          role = u.role;
          token = token;
          expires_at = s.expires_at;
        })

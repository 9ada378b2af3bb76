-- ===== src/Auth/Sessions.antt =====
-- server/src/auth.cpp: the life of a session, from `login` over `validate` to `logout` and expiry.
use network_final_project.Base.{
  ℕ, ◌≤◌, ◌<◌, ◌≡◌, refl, ◌≢◌, inl, inr, String, true, false, none, some, List, [], ◌∷◌, ◌++◌,
  arith, first, any, delete, eq_iff, eq_refl, Option-cases, c_str,
}
use network_final_project.Base.Action.{ok, err}
use network_final_project.Crypto.{quiz_salt, verify_password}
use network_final_project.Db.{Db, UserRow, SessionRow}
use network_final_project.Db.Env.{
  Env, IsUp, select_user, select_session, delete_session, delete_expired,
}
use network_final_project.Auth.{
  SessionInfo, has_username, has_id, has_token, session_user, login, logout, validate, random_token,
  add_u64,
}
use network_final_project.Auth.Accounts.{IsValid, first_id_of_username}
use network_final_project.Auth.Tokens.{c_str-random_token}

-- A token that no session has finds nothing among them.
session_user-append_new :
    (token : String) (us : List UserRow) (ss : List SessionRow) (s : SessionRow) (u : UserRow)
    → any (has_token token) ss ≡ false
    → has_token token s ≡ true
    → first (has_id s.user_id) us ≡ some u
    → session_user token us (ss ++ s ∷ []) ≡ some (s, u)
unfolding session_user
session_user-append_new token us [] s u a b c = ground arith
session_user-append_new token us (x ∷ ss) s u a b c =
    ground (arith, session_user-append_new token us ss s u)

session_user-delete_self :
    (token : String) (us : List UserRow) (ss : List SessionRow)
    → session_user token us (delete (has_token token) ss) ≡ none
unfolding session_user
session_user-delete_self token us [] = refl
session_user-delete_self token us (s ∷ ss) = ground (arith, session_user-delete_self token us ss)

session_user-delete_ne :
    (token other : String) (us : List UserRow) (ss : List SessionRow)
    → other ≢ token
    → session_user other us (delete (has_token token) ss) ≡ session_user other us ss
unfolding session_user
session_user-delete_ne token other us [] h = refl
session_user-delete_ne token other us (s ∷ ss) h =
    ground (
      arith,
      session_user-delete_ne token other us ss h,
      eq_iff s.token token,
      eq_iff s.token other,
    )

login-eq-ok :
    {D : Type 0} (env : Env) (username password : String) (ttl : ℕ) (s : SessionInfo)
    (db db' : Db D) (u : UserRow)
    → login env username password ttl db ≡ (ok s, db')
    → first (has_username (c_str username)) db.users ≡ some u
    → (verify_password env.hash password u.pass_hash quiz_salt ≡ true)
      × (any (has_token (random_token env)) db.sessions ≡ false)
      × (db'.users ≡ db.users)
      × (s ≡ record {
        user_id = u.id;
        username = username;
        role = u.role;
        token = random_token env;
        expires_at = add_u64 (env.clock 0) ttl;
      })
      × (db'.sessions
          ≡ db.sessions
            ++ record {
              user_id = u.id;
              token = random_token env;
              expires_at = add_u64 (env.clock 0) ttl;
              created_at = env.clock 0;
            }
              ∷ [])
unfolding login
login-eq-ok env username password ttl s db db' u h e = ground arith

first_username :
    (name : String) (us : List UserRow) (u : UserRow)
    → first (has_username name) us ≡ some u
    → u.username ≡ name
first_username name [] u e = cc
first_username name (x ∷ us) u e = ground (arith, eq_iff x.username name, first_username name us u)

-- In a database with unique keys, when SQLite accepts the calls, the token of a login is valid
-- until it expires and stands for the session that login returned, with the username up to its first
-- NUL.
pub validate-login :
    {D : Type 0} (env env' : Env) (username password : String) (ttl : ℕ) (s : SessionInfo)
    (db db' : Db D)
    → IsValid db
    → login env username password ttl db ≡ (ok s, db')
    → IsUp env'
    → env'.clock 0 ≤ s.expires_at
    → validate env' s.token db' ≡ (ok (record s { username = c_str username }), db')
unfolding validate
validate-login env env' username password ttl s db db' v h up soon =
    elim (Option-cases (first (has_username (c_str username)) db.users)) [
      | inl missing ↦ absurd (unfold login in ground arith)
      | inr (u, found) ↦
          let (_, free, users, session, sessions) =
            login-eq-ok env username password ttl s db db' u h found in
          ground (
            arith,
            free,
            users,
            session,
            sessions,
            up.prepared select_session,
            c_str-random_token env,
            first_username (c_str username) db.users u found,
            session_user-append_new (random_token env) db.users db.sessions
                (record {
                  user_id = u.id;
                  token = random_token env;
                  expires_at = add_u64 (env.clock 0) ttl;
                  created_at = env.clock 0;
                })
                u free (eq_refl (random_token env))
                (first_id_of_username (c_str username) db.next_user db.users u v found).0,
          )
    ]

-- When SQLite accepts the calls, after a logout the token is refused, and every token that differs
-- from it before the first NUL is answered as before.
pub validate-logout :
    {D : Type 0} (env env' : Env) (token other : String) (db : Db D)
    → IsUp env
    → IsUp env'
    → c_str other ≢ c_str token
    → let db' = (logout env token db).1 in
      (validate env' token db' ≡ (err "Session not found", db'))
      × ((validate env' other db').0 ≡ (validate env' other db).0)
unfolding validate logout
validate-logout env env' token other db up up' ne = ground (
  arith,
  up.prepared delete_session,
  up.stepped delete_session 0,
  up'.prepared select_session,
  up'.prepared delete_expired,
  up'.stepped delete_expired 0,
  session_user-delete_self (c_str token) db.users db.sessions,
  session_user-delete_ne (c_str token) (c_str other) db.users db.sessions ne,
)

-- When SQLite accepts the calls, a session past its end is refused and removed: the token is
-- unknown from then on.
pub validate_expired :
    {D : Type 0} (env env' : Env) (token : String) (s : SessionRow) (u : UserRow) (db : Db D)
    → IsUp env
    → IsUp env'
    → session_user (c_str token) db.users db.sessions ≡ some (s, u)
    → s.expires_at < env.clock 0
    → ((validate env token db).0 ≡ err "Session expired")
      × ((validate env' token (validate env token db).1).0 ≡ err "Session not found")
unfolding validate
validate_expired env env' token s u db up up' found late = ground (
  arith,
  up.prepared select_session,
  up.prepared delete_expired,
  up.stepped delete_expired 0,
  up'.prepared select_session,
  session_user-delete_self (c_str token) db.users db.sessions,
)

-- When SQLite accepts the calls, a wrong password for a known username is refused, and the
-- database is unchanged.
pub login_wrong_password :
    {D : Type 0} (env : Env) (username password : String) (ttl : ℕ) (u : UserRow) (db : Db D)
    → IsUp env
    → first (has_username (c_str username)) db.users ≡ some u
    → verify_password env.hash password u.pass_hash quiz_salt ≡ false
    → login env username password ttl db ≡ (err "Invalid credentials", db)
unfolding login
login_wrong_password env username password ttl u db up found wrong =
    ground (arith, up.prepared select_user)

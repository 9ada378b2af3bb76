-- ===== src/Server/Accounts.antt =====
-- server/src/auth.cpp and server/src/main.cpp: the tables that AuthService and the handlers of accounts
-- work on.
use network_final_project.Base.{ℕ, ◌≡◌, refl, String, arith}
use network_final_project.Codec.Json.{JsonApi}
use network_final_project.Codec.Message.{Message}
use network_final_project.Db.{Db}
use network_final_project.Db.Env.{Env}
use network_final_project.Auth.{
  register_user, insert_user_row, login, insert_session_row, logout, validate, expire,
}
use network_final_project.Handlers.{JsonData, pure, read}
use network_final_project.Handlers.Account.{
  echo_handler, register_request, login_request, logout_token, logout_request,
}
use network_final_project.Handlers.Access.{pure-same}
use network_final_project.Handlers.Rules.{after_read, after_require, after_quiet, after_call}

-- Every table but those of users and sessions is the same.
abbrev pub IsAccounts : {D : Type 0} → Db D → Db D → Type 0
IsAccounts db db' =
    db' ≡ record db { users = db'.users; next_user = db'.next_user; sessions = db'.sessions }

module _ {D : Type 0} (env : Env) (db : Db D) where
  pub validate-IsAccounts : (token : String) → IsAccounts db (validate env token db).1
  unfolding validate expire
  validate-IsAccounts token = ground arith

  register_user-IsAccounts : (u p n e r : String) → IsAccounts db (register_user env u p n e r db).1
  unfolding register_user insert_user_row
  register_user-IsAccounts u p n e r = ground arith

  login-IsAccounts : (u p : String) (ttl : ℕ) → IsAccounts db (login env u p ttl db).1
  unfolding login insert_session_row
  login-IsAccounts u p ttl = ground arith

  logout-IsAccounts : (token : String) → IsAccounts db (logout env token db).1
  unfolding logout
  logout-IsAccounts token = ground arith

module _ {J D : Type 0} (js : JsonApi J) (jd : JsonData J D) (env : ℕ → Env) (req : Message J)
    (db : Db D) where
  pub echo_handler-IsAccounts : IsAccounts db (echo_handler js jd env req db).1
  unfolding echo_handler pure
  echo_handler-IsAccounts = refl

  pub register_request-IsAccounts : IsAccounts db (register_request js jd env req db).1
  unfolding register_request
  register_request-IsAccounts = after_require (IsAccounts db) refl _ _ _ _ λ given.
      after_read (IsAccounts db) refl _ _ λ username.
        after_read (IsAccounts db) refl _ _ λ password.
          after_read (IsAccounts db) refl _ _ λ full_name.
            after_read (IsAccounts db) refl _ _ λ email.
              after_call (IsAccounts db) _ _ _
                (register_user-IsAccounts (env 0) db username password full_name email "STUDENT")
                (λ a d. pure-same _ d)

  pub login_request-IsAccounts : IsAccounts db (login_request js jd env req db).1
  unfolding login_request
  login_request-IsAccounts = after_require (IsAccounts db) refl _ _ _ _ λ given.
      after_read (IsAccounts db) refl _ _ λ username.
        after_read (IsAccounts db) refl _ _ λ password.
          after_call (IsAccounts db) _ _ _ (login-IsAccounts (env 0) db username password 3600)
            (λ a d. pure-same _ d)

  pub logout_request-IsAccounts : IsAccounts db (logout_request js jd env req db).1
  unfolding logout_request
  logout_request-IsAccounts =
      after_quiet (IsAccounts db) refl _ _ (unfold logout_token read pure in ground arith)
        λ token e. after_require (IsAccounts db) refl _ _ _ _ λ given.
          after_call (IsAccounts db) _ _ _ (logout-IsAccounts (env 0) db token)
            (λ a d. pure-same _ d)

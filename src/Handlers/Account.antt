-- ===== src/Handlers/Account.antt =====
-- server/src/main.cpp: the handlers ECHO, REGISTER, LOGIN and LOGOUT, which need no session.
use network_final_project.Base.{ℕ, String, not, ◌&&◌, [], ◌∷◌, str_eq, if◌then◌else◌}
use network_final_project.Codec.Json.{JsonApi}
use network_final_project.Codec.Message.{Message}
use network_final_project.Db.{Db}
use network_final_project.Db.Env.{Env}
use network_final_project.Auth.{register_user, login, logout}
use network_final_project.Handlers.{
  JsonData, Handling, ◌>>=◌, ◌>>◌, pure, call, read, require, Reply, fields, of_id, replies,
}

module _ {J D : Type 0} (js : JsonApi J) (jd : JsonData J D) (env : ℕ → Env) where
  unfoldable pub echo_handler : Message J → Handling (Db D) (Reply J)
  echo_handler req = pure (record { session_id = ""; payload = req.payload })

  unfoldable pub register_request : Message J → Handling (Db D) (Reply J)
  register_request req = do
    let d = req.payload
    require (js.contains d "username" && (js.contains d "password" && js.contains d "full_name"))
        "INVALID_REQUEST" "Missing required fields"
    username ← read (jd.value_text d "username" "")
    password ← read (jd.value_text d "password" "")
    full_name ← read (jd.value_text d "full_name" "")
    email ← read (jd.value_text d "email" "")
    user_id ←
        call "REGISTER_FAILED" (register_user (env 0) username password full_name email "STUDENT")
    pure (replies js jd (("user_id", of_id js jd user_id) ∷ []))

  unfoldable pub login_request : Message J → Handling (Db D) (Reply J)
  login_request req = do
    let d = req.payload
    require (js.contains d "username" && js.contains d "password") "INVALID_REQUEST"
        "Missing username/password"
    username ← read (jd.value_text d "username" "")
    password ← read (jd.value_text d "password" "")
    session ← call "LOGIN_FAILED" (login (env 0) username password 3600)
    pure (record {
      session_id = session.token;
      payload = fields js jd (
          ("user_id", of_id js jd session.user_id)
          ∷ ("username", js.of_string session.username)
          ∷ ("role", js.of_string session.role)
          ∷ ("expires_at", js.of_unsigned session.expires_at)
          ∷ ("session_id", js.of_string session.token)
          ∷ []);
    })

  -- The token of the message, or else the one among its data.
  unfoldable pub logout_token : Message J → Handling (Db D) String
  logout_token req =
      if str_eq req.session_id "" && js.contains req.payload "session_id"
      then read (jd.value_text req.payload "session_id" "")
      else pure req.session_id

  unfoldable pub logout_request : Message J → Handling (Db D) (Reply J)
  unfolding logout_token
  logout_request req = do
    token ← logout_token req
    require (not (str_eq token "")) "INVALID_REQUEST" "Missing session_id"
    call "LOGOUT_FAILED" (logout (env 0) token)
    pure (replies js jd (("message", js.of_string "Logged out") ∷ []))

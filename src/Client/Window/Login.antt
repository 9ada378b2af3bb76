-- ===== src/Client/Window/Login.antt =====
-- client/src/ui.cpp, server/src/server.cpp, server/src/main.cpp and server/src/auth.cpp: from the button Login
-- over the server's answer to the requests that the window sends then.
use network_final_project.Base.{
  ℕ, ◌≤◌, ◌≡◌, refl, ◌∙◌, sym, ap, String, false, some, str_eq, c_str, [], ◌∷◌, arith,
}
use network_final_project.Base.Action.{ok}
use network_final_project.Codec.Json.{JsonApi, JsonLaws}
use network_final_project.Db.{Db, Floats}
use network_final_project.Db.Env.{Env, IsUp}
use network_final_project.Auth.{SessionInfo, login as logged_in, validate}
use network_final_project.Auth.Tokens.{random_token_named, login_token}
use network_final_project.Auth.Accounts.{IsValid}
use network_final_project.Auth.Sessions.{validate-login}
use network_final_project.Handlers.{
  JsonData, value, ◌>>=◌ as ◌then_handle◌, pure as handlers_pure, fields, of_id, call, read,
  require,
}
use network_final_project.Handlers.Account.{login_request}
use network_final_project.Handlers.Fields.{DataLaws, lookup_held, lookup-fields}
use network_final_project.Server.{
  answer, complete, make_success, find_handler, register_handler, main_handlers,
}
use network_final_project.Client.State.{ClientState}
use network_final_project.Client.Window.{JsonView, show_login, handle_event}
use network_final_project.Client.Window.Buttons.{
  Button, login, create, refresh, join, start, get_paper, submit_exam, start_practice,
  submit_practice, room_results, my_history, pressed, action_of, data_of, typed, request_of,
  login_data,
}
use network_final_project.Server.Answers.{answer-value}

login_handler :
    {J D : Type 0} (js : JsonApi J) (jd : JsonData J D) (fl : Floats D)
    → find_handler "LOGIN" (main_handlers js jd fl) ≡ some (login_request js jd)
unfolding find_handler main_handlers register_handler
login_handler js jd fl = refl

typed_token : (button : Button) (st : ClientState) → (typed button st).token ≡ st.token
unfolding typed
typed_token (login user pass) st = refl
typed_token create st = refl
typed_token refresh st = refl
typed_token (join line) st = refl
typed_token (start line) st = refl
typed_token (get_paper room_id) st = refl
typed_token submit_exam st = refl
typed_token (start_practice qcount minutes) st = refl
typed_token submit_practice st = refl
typed_token (room_results room_id) st = refl
typed_token my_history st = refl

-- A window whose user is logged in.
abbrev pub with_session : SessionInfo → ClientState → ClientState
with_session s st = record st { token = s.token; role = s.role; last_errors = "" }

module _ {J D : Type 0} (js : JsonApi J) (laws : JsonLaws js) (jd : JsonData J D)
    (data_laws : DataLaws js jd) (jv : JsonView J) (env : ℕ → Env) where
  abbrev session_data : SessionInfo → J
  session_data s = fields js jd (
      ("user_id", of_id js jd s.user_id)
      ∷ ("username", js.of_string s.username)
      ∷ ("role", js.of_string s.role)
      ∷ ("expires_at", js.of_unsigned s.expires_at)
      ∷ ("session_id", js.of_string s.token)
      ∷ [])

  login_request-pressed :
      (user pass : String) (st : ClientState) (s : SessionInfo) (db db' : Db D)
      → logged_in (env 0) user pass 3600 db ≡ (ok s, db')
      → login_request js jd env (pressed js jd (login user pass) st) db
        ≡ (value (record { session_id = s.token; payload = session_data s }), db')
  unfolding login_request call read require handlers_pure ◌then_handle◌ data_of typed request_of
      login_data
  login_request-pressed user pass st s db db' found =
      let d = login_data js jd (typed (login user pass) st) in
      ground (
        arith,
        found,
        (lookup_held js jd d "username" (js.of_string user)
            (lookup-fields js jd laws _ "username")).0,
        (lookup_held js jd d "password" (js.of_string pass)
            (lookup-fields js jd laws _ "password")).0,
        data_laws.value_text_lem d "username" "" user (lookup-fields js jd laws _ "username"),
        data_laws.value_text_lem d "password" "" pass (lookup-fields js jd laws _ "password"),
      )

  token_of_request :
      (button : Button) (st : ClientState) → (pressed js jd button st).session_id ≡ st.token
  unfolding request_of
  token_of_request button st = typed_token button st

  module _ (fl : Floats D) (clock : ℕ → ℕ) where
    login_answer :
        (user pass : String) (st : ClientState) (s : SessionInfo) (db db' : Db D)
        → logged_in (env 0) user pass 3600 db ≡ (ok s, db')
        → let msg = pressed js jd (login user pass) st in
          answer js (main_handlers js jd fl) env clock msg db ≡ (
            complete (clock 1) msg (
                make_success
                  (clock 0)
                  msg
                  (record { session_id = s.token; payload = session_data s })),
            db',
          )
    unfolding request_of action_of
    login_answer user pass st s db db' found =
        answer-value js env clock (main_handlers js jd fl) (login_request js jd)
          (pressed js jd (login user pass) st) db db' _ (login_handler js jd fl)
          (login_request-pressed user pass st s db db' found)

    login_shown :
        (user pass : String) (st : ClientState) (s : SessionInfo) (db db' : Db D)
        → str_eq s.token "" ≡ false
        → logged_in (env 0) user pass 3600 db ≡ (ok s, db')
        → handle_event js jd jv
            (answer js (main_handlers js jd fl) env clock (pressed js jd (login user pass) st) db).0
            (typed (login user pass) st)
          ≡ (ok tt, with_session s (typed (login user pass) st))
    unfolding handle_event show_login complete make_success typed request_of action_of
    login_shown user pass st s db db' named found =
        ap (λ a. handle_event js jd jv a.0 (typed (login user pass) st))
          (login_answer user pass st s db db' found)
        ∙ ground (
          arith,
          named,
          data_laws.value_text_lem (session_data s) "role" "" s.role
              (lookup-fields js jd laws _ "role"),
        )

    -- When the JSON library behaves as documented and the keys of the database are unique: if the
    -- server accepts what Login sends, then the window keeps the token and the role of the new
    -- session and shows no error, and as long as the session has not expired, the server that
    -- SQLite does not fail takes every button that is pressed next as this user's, under the username
    -- up to its first NUL.
    pub handle_event-login :
        (user pass : String) (st : ClientState) (s : SessionInfo) (db db' : Db D)
        → IsValid db
        → logged_in (env 0) user pass 3600 db ≡ (ok s, db')
        → let (resp, after) =
            answer js (main_handlers js jd fl) env clock (pressed js jd (login user pass) st) db in
          let (shown, st') = handle_event js jd jv resp (typed (login user pass) st) in
          (shown ≡ ok tt)
          × (st' ≡ with_session s (typed (login user pass) st))
          × ((env' : Env) (button : Button)
              → IsUp env'
              → env'.clock 0 ≤ s.expires_at
              → validate env' (pressed js jd button st').session_id after
                ≡ (ok (record s { username = c_str user }), after))
    handle_event-login user pass st s db db' v found =
        let done =
          answer js (main_handlers js jd fl) env clock (pressed js jd (login user pass) st) db in
        let named =
          ap (λ t. str_eq t "") (login_token (env 0) user pass 3600 s db db' found)
          ∙ random_token_named (env 0) in
        let event = login_shown user pass st s db db' named found in
        let after : done.1 ≡ db' = ap (λ a. a.1) (login_answer user pass st s db db' found) in
        (
          ap (λ e. e.0) event,
          ap (λ e. e.1) event,
          λ env' button up soon.
              ap (λ t. validate env' t done.1)
                (token_of_request button
                    (handle_event js jd jv done.0 (typed (login user pass) st)).1
                  ∙ ap (λ e. e.1.token) event)
              ∙ ap (λ d. validate env' s.token d) after
              ∙ validate-login (env 0) env' user pass 3600 s db db' v found up soon
              ∙ ap (λ d. (ok (record s { username = c_str user }), d)) (sym after),
        )

-- ===== src/Scripts/Echo.antt =====
-- scripts/echo_client.cpp: a run of the program against a server. The texts of the failures are those that it
-- prints, and the program ends with 1 then.
use Prim.Native.String.{◌++◌ as ◌joined◌}
use network_final_project.Base.{ℕ, ◌≡◌, refl, ap, String, true, false, List, [], ◌∷◌, ◌++◌, arith}
use network_final_project.Base.Action.{Result, ok, err}
use network_final_project.Codec.Json.{JsonApi, JsonLaws}
use network_final_project.Codec.Message.{Message, request, Status, success, unset}
use network_final_project.Codec.Aes.{Evp}
use network_final_project.Codec.Aes.Buffers.{EvpLaws}
use network_final_project.Codec.Frame.{encode_frame, decode_frame}
use network_final_project.Codec.Socket.{Event, Taking, read_frame, write_frame}
use network_final_project.Codec.Socket.Stream.{bytes_of, is_live}
use network_final_project.Codec.Socket.Messages.{IsSendable, one_frame}
use network_final_project.Db.{Db, Floats}
use network_final_project.Db.Env.{Env}
use network_final_project.Handlers.{JsonData, pure, fields}
use network_final_project.Handlers.Fields.{fields-is_object}
use network_final_project.Handlers.Account.{echo_handler}
use network_final_project.Server.{
  answer, complete, make_success, find_handler, register_handler, main_handlers,
}
use network_final_project.Server.Answers.{answer-value}
use network_final_project.Client.Life.{Dialing, no_socket, bad_host, refused, made}

module _ {J D : Type 0} (js : JsonApi J) (jd : JsonData J D) where
  -- `{{"msg", msg_text}}`
  unfoldable pub echo_data : String → J
  echo_data text = fields js jd (("msg", js.of_string text) ∷ [])

  unfoldable pub echo_request : ℕ → String → Message J
  echo_request now text = record {
    type = request;
    action = "ECHO";
    timestamp = now;
    session_id = "";
    payload = echo_data text;
    status = unset;
    error_code = "";
    error_message = "";
  }

abbrev status_shown : Status → String
status_shown success = "SUCCESS"
status_shown _ = "ERROR"

-- Where a step fails, what is printed in front of its error.
abbrev labelled : {A B : Type 0} → String → Result A → (A → Result B) → Result B
labelled label (ok a) k = k a
labelled label (err e) k = err (label joined e)

module _ {J : Type 0} (js : JsonApi J) (evp : Evp) where
  -- From the request on, on a connection that is made.
  unfoldable pub exchange : List Taking → List Event → Message J → Result (String × List ℕ)
  exchange takings events req = labelled "encode error: " (encode_frame js evp req) λ frame.
      labelled "write error: " (write_frame takings frame) λ sent.
        labelled "read error: " (read_frame events) λ read.
          labelled "decode error: " (decode_frame js evp read.0)
            λ resp. ok (status_shown resp.status, js.dump resp.payload)

module _ {J D : Type 0} (js : JsonApi J) (jd : JsonData J D) (evp : Evp) where
  -- The status and the data that are printed.
  unfoldable pub echo_main :
      Dialing → List Taking → List Event → ℕ → String → Result (String × List ℕ)
  echo_main no_socket takings events now text = err "socket"
  echo_main bad_host takings events now text = err "Invalid host"
  echo_main refused takings events now text = err "connect"
  echo_main made takings events now text =
      exchange js evp takings events (echo_request js jd now text)

module _ {J D : Type 0} (js : JsonApi J) (laws : JsonLaws js) (jd : JsonData J D) (fl : Floats D)
    (env : ℕ → Env) (clock : ℕ → ℕ) (evp : Evp) (evp_laws : EvpLaws evp) where
  echo_answer :
      (now : ℕ) (text : String) (db : Db D)
      → let resp =
          (answer js (main_handlers js jd fl) env clock (echo_request js jd now text) db).0 in
        (resp.status ≡ success) × (resp.payload ≡ echo_data js jd text)
  unfolding find_handler main_handlers register_handler echo_request echo_handler pure complete
      make_success
  echo_answer now text db =
      let answered =
        answer-value js env clock (main_handlers js jd fl) (echo_handler js jd)
          (echo_request js jd now text) db db _ refl refl in
      (ap (λ a. a.0.status) answered, ap (λ a. a.0.payload) answered)

  echo_data-not_null : (text : String) → js.is_null (echo_data js jd text) ≡ false
  unfolding echo_data
  echo_data-not_null text = laws.object_not_null _ (fields-is_object js jd laws _)

  -- When OpenSSL and the JSON library behave as documented, the connection is made and takes the request,
  -- and a stream carries the frame of the server's answer, however it is cut: the program prints
  -- SUCCESS and the object with the text that it was started with, whatever the server's store is.
  pub echo_main-answer :
      (takings : List Taking) (events : List Event) (now : ℕ) (text : String) (db : Db D)
      (sent_frame out frame rest : List ℕ)
      → encode_frame js evp (echo_request js jd now text) ≡ ok sent_frame
      → write_frame takings sent_frame ≡ ok out
      → let resp =
          (answer js (main_handlers js jd fl) env clock (echo_request js jd now text) db).0 in
        IsSendable js resp
        → encode_frame js evp resp ≡ ok frame
        → is_live events ≡ true
        → bytes_of events ≡ frame ++ rest
        → echo_main js jd evp made takings events now text
          ≡ ok ("SUCCESS", js.dump (echo_data js jd text))
  unfolding echo_main exchange
  echo_main-answer takings events now text db sent_frame out frame rest encoded written good framed
        live stream =
      let resp =
        (answer js (main_handlers js jd fl) env clock (echo_request js jd now text) db).0 in
      let (left, read, after, lives, back) =
        one_frame js evp evp_laws laws resp frame rest events good framed live stream in
      ground (arith, encoded, written, read, back, echo_answer now text db, echo_data-not_null text)

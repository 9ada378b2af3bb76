-- ===== src/Tests/Conversations.antt =====
-- A client of client/src/core.cpp that says ECHO to the server of server/src/server.cpp.
use network_final_project.Base.{
  ℕ, ◌<◌, ◌≡◌, ◌≢◌, refl, sym, Bool, true, false, Option, some, List, [], ◌∷◌, ◌++◌, map, arith,
  length, eq_iff, ◌==◌, if◌then◌else◌,
}
use mathlib.Core.Path.{subst}
use network_final_project.Base.Action.{ok}
use network_final_project.Codec.Json.{JsonApi}
use network_final_project.Codec.Message.{
  Message, request, response, unset, success, message_to_json, type_to_string, status_to_string,
  put_text,
}
use network_final_project.Codec.Utf8.{is_valid_utf8, valid_from, remaining}
use network_final_project.Codec.Aes.{encrypt_aes_cbc, run_cipher, write_at, resize}
use network_final_project.Codec.Frame.{encode_frame, seal, prefix_of, to_be32, word_bytes}
use network_final_project.Codec.Socket.{Event, arrived, interrupted}
use network_final_project.Codec.Socket.Messages.{IsSendable, Sends, silent, sends}
use network_final_project.Db.Env.{Env}
use network_final_project.ThreadPool.{Pool, idle_threads}
use network_final_project.Handlers.{pure}
use network_final_project.Handlers.Account.{echo_handler}
use network_final_project.Server.{
  answer, handle, complete, make_success, main_handlers, find_handler, register_handler,
}
use network_final_project.Server.Connection.{Task, read_loop}
use network_final_project.Server.Conversation.{answer_all, responses, pop_events-answer_all}
use network_final_project.Client.{reader_loop, pop_events}
use network_final_project.Tests.{at_time, whole_numbers, empty_db}
use network_final_project.Tests.Values.{toy_data}
use network_final_project.Tests.Toys.{
  Json, empty, text, number, assigned, has, json_with, json_with-JsonLaws, pads, pads-EvpLaws,
}

abbrev pub hello : Json
hello = assigned empty "msg" (text "hello")

abbrev pub hello_request : Message Json
hello_request = record {
  type = request;
  action = "ECHO";
  timestamp = 100;
  session_id = "";
  payload = hello;
  status = unset;
  error_code = "";
  error_message = "";
}

abbrev pub echo_reply : Message Json
echo_reply = record {
  type = response;
  action = "ECHO";
  timestamp = 120;
  session_id = "";
  payload = hello;
  status = success;
  error_code = "";
  error_message = "";
}

abbrev pub request_json : Json
request_json =
    assigned
      (assigned (assigned (assigned empty "message_type" (text "REQUEST")) "action" (text "ECHO"))
        "timestamp" (number 100))
      "data" hello

abbrev pub reply_json : Json
reply_json =
    assigned
      (assigned
        (assigned
          (assigned (assigned empty "message_type" (text "RESPONSE")) "action" (text "ECHO"))
          "timestamp" (number 120))
        "data" hello)
      "status" (text "SUCCESS")

-- A response is written as `{ }`, a request as `{}`.
abbrev pub writes : Json → List ℕ
writes j = if has j "status" then 123 ∷ 32 ∷ 125 ∷ [] else 123 ∷ 125 ∷ []

abbrev pub reads : List ℕ → Option Json
reads bytes = if length bytes == 2 then some request_json else some reply_json

abbrev pub both : JsonApi Json
both = json_with writes reads

echo_is_named : hello_request.action ≢ ""
echo_is_named = ground (arith, eq_iff "ECHO" "")

request-IsSendable : IsSendable both hello_request
unfolding message_to_json type_to_string put_text is_valid_utf8 valid_from remaining
request-IsSendable = record {
  has_action = echo_is_named;
  has_data = refl;
  has_status = refl;
  fits_clock = omega arith;
  parses = refl;
  is_text = refl;
  is_some_text = omega arith;
  fits = omega arith;
}

pub reply-IsSendable : IsSendable both echo_reply
unfolding message_to_json type_to_string status_to_string put_text is_valid_utf8 valid_from
    remaining
reply-IsSendable = record {
  has_action = echo_is_named;
  has_data = refl;
  has_status = refl;
  fits_clock = omega arith;
  parses = refl;
  is_text = refl;
  is_some_text = omega arith;
  fits = omega arith;
}

abbrev pub request_rest : List ℕ
request_rest =
    0 ∷ 0 ∷ 16 ∷ 123 ∷ 125 ∷ 14 ∷ 14 ∷ 14 ∷ 14 ∷ 14 ∷ 14 ∷ 14 ∷ 14 ∷ 14 ∷ 14 ∷ 14 ∷ 14 ∷ 14 ∷ 14
    ∷ []

abbrev pub reply_frame : List ℕ
reply_frame =
    0 ∷ 0 ∷ 0 ∷ 16 ∷ 123 ∷ 32 ∷ 125 ∷ 13 ∷ 13 ∷ 13 ∷ 13 ∷ 13 ∷ 13 ∷ 13 ∷ 13 ∷ 13 ∷ 13 ∷ 13 ∷ 13 ∷ 13
    ∷ []

pub request_encoded : encode_frame both pads hello_request ≡ ok (0 ∷ request_rest)
unfolding encode_frame message_to_json type_to_string put_text seal is_valid_utf8 valid_from
    remaining encrypt_aes_cbc run_cipher write_at resize prefix_of to_be32 word_bytes
request_encoded = refl

pub reply_encoded : encode_frame both pads echo_reply ≡ ok reply_frame
unfolding encode_frame message_to_json type_to_string status_to_string put_text seal is_valid_utf8
    valid_from remaining encrypt_aes_cbc run_cipher write_at resize prefix_of to_be32 word_bytes
reply_encoded = refl

abbrev pub at_100 : ℕ → ℕ → Env
at_100 i n = at_time 100

abbrev pub at_120 : ℕ → ℕ → ℕ
at_120 i n = 120

abbrev pub replies_of : List (Task Json) → List (Message Json)
replies_of tasks = responses both toy_data whole_numbers at_100 at_120 tasks empty_db

echo_answered : replies_of ((7, hello_request) ∷ []) ≡ echo_reply ∷ []
unfolding answer_all answer handle complete make_success main_handlers find_handler register_handler
    echo_handler pure
echo_answered = refl

pub request_sent : Sends both pads (hello_request ∷ []) ((0 ∷ request_rest) ++ [])
request_sent =
    sends hello_request (0 ∷ request_rest) [] [] request-IsSendable request_encoded silent

pub reply_sent : Sends both pads (replies_of ((7, hello_request) ∷ [])) (reply_frame ++ [])
reply_sent =
    subst (λ rs. Sends both pads rs (reply_frame ++ [])) (sym echo_answered)
      (sends echo_reply reply_frame [] [] reply-IsSendable reply_encoded silent)

pub one_reply : length (replies_of ((7, hello_request) ∷ [])) < 2
unfolding answer_all
one_reply = omega arith

abbrev pub to_server : List Event
to_server = arrived (0 ∷ []) ∷ interrupted ∷ arrived request_rest ∷ []

abbrev pub to_client : List Event
to_client = arrived reply_frame ∷ []

abbrev pub quiet_pool : Pool (Task Json)
quiet_pool = record { tasks = []; stopping = false; threads = idle_threads 4 }

abbrev pub always : ℕ → Bool
always n = true

pop_events-answer_all_example :
    (pool : Pool (Task Json)) × (queue : List (Message Json)) × (read_loop both pads
        (λ p. 0)
        7
        always
        2
        to_server
        quiet_pool
      ≡ some pool)
    × (reader_loop both pads always 2 to_client [] ≡ some queue)
    × (pop_events (length queue) queue ≡ (map some (replies_of pool.tasks), []))
    × (map (λ r. r.action) (replies_of pool.tasks) ≡ "ECHO" ∷ [])
pop_events-answer_all_example =
    pop_events-answer_all both (json_with-JsonLaws writes reads) toy_data whole_numbers at_100
      at_120 pads pads-EvpLaws (λ p. 0) 7 quiet_pool empty_db always (hello_request ∷ [])
      ((0 ∷ request_rest) ++ []) (reply_frame ++ []) to_server to_client 2 (λ n. refl) refl refl
      request_sent refl refl reply_sent refl refl (omega arith) one_reply

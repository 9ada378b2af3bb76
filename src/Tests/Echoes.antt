-- ===== src/Tests/Echoes.antt =====
-- A run of scripts/echo_client.cpp against the server.
use network_final_project.Base.{ℕ, ◌≡◌, refl, ◌∙◌, sym, ap, List, [], ◌∷◌}
use mathlib.Core.Path.{subst}
use network_final_project.Base.Action.{ok}
use network_final_project.Codec.Message.{Message}
use network_final_project.Codec.Frame.{encode_frame}
use network_final_project.Codec.Socket.{Taking, taken, stopped, write_frame, write_exact}
use network_final_project.Codec.Socket.Messages.{IsSendable}
use network_final_project.Db.Env.{Env}
use network_final_project.Handlers.{pure, fields}
use network_final_project.Handlers.Account.{echo_handler}
use network_final_project.Server.{
  answer, handle, complete, make_success, main_handlers, find_handler, register_handler,
}
use network_final_project.Client.Life.{made}
use network_final_project.Scripts.Echo.{echo_data, echo_request, echo_main, echo_main-answer}
use network_final_project.Tests.{at_time, whole_numbers, empty_db}
use network_final_project.Tests.Toys.{Json, json_with-JsonLaws, pads, pads-EvpLaws}
use network_final_project.Tests.Values.{toy_data}
use network_final_project.Tests.Conversations.{
  both, writes, reads, hello_request as said, echo_reply, request_rest, request_encoded,
  reply_frame, reply_encoded, reply-IsSendable, to_client,
}

abbrev at_100 : ℕ → Env
at_100 n = at_time 100

abbrev at_120 : ℕ → ℕ
at_120 n = 120

abbrev server_reply : Message Json
server_reply =
    (answer both (main_handlers both toy_data whole_numbers) at_100 at_120
      (echo_request both toy_data 100 "hello") empty_db).0

hello_said : echo_request both toy_data 100 "hello" ≡ said
unfolding echo_request echo_data fields
hello_said = refl

reply_made : server_reply ≡ echo_reply
unfolding answer handle complete make_success main_handlers find_handler register_handler
    echo_handler pure echo_request echo_data fields
reply_made = refl

-- The request goes out in two parts.
abbrev two_parts : List Taking
two_parts = taken 7 ∷ stopped ∷ taken 40 ∷ []

went_out : write_frame two_parts (0 ∷ request_rest) ≡ ok (0 ∷ request_rest)
unfolding write_frame write_exact
went_out = refl

echo_main-answer_example :
    echo_main both toy_data pads made two_parts to_client 100 "hello"
    ≡ ok ("SUCCESS", both.dump (echo_data both toy_data "hello"))
echo_main-answer_example =
    echo_main-answer both (json_with-JsonLaws writes reads) toy_data whole_numbers at_100 at_120
      pads pads-EvpLaws two_parts to_client 100 "hello" empty_db (0 ∷ request_rest)
      (0 ∷ request_rest) reply_frame [] (ap (encode_frame both pads) hello_said ∙ request_encoded)
      went_out (subst (IsSendable both) (sym reply_made) reply-IsSendable)
      (ap (encode_frame both pads) reply_made ∙ reply_encoded) refl refl

-- ===== src/Tests/Responses.antt =====
-- A run of the window of client/src/ui.cpp on what the server of server/src/server.cpp answers to ECHO.
use network_final_project.Base.{◌≡◌, refl, some, List, [], ◌∷◌, ◌++◌, arith}
use network_final_project.Base.Action.{pure, ◌>>◌}
use network_final_project.Codec.Message.{Message}
use network_final_project.ThreadPool.{Pool}
use network_final_project.Server.Connection.{Task, read_loop}
use network_final_project.Client.{reader_loop}
use network_final_project.Client.State.{initial_state}
use network_final_project.Client.Window.{drain}
use network_final_project.Client.Window.Events.{show_all}
use network_final_project.Client.Window.Responses.{drain-responses}
use network_final_project.Tests.{whole_numbers, empty_db}
use network_final_project.Tests.Toys.{Json, json_with-JsonLaws, pads, pads-EvpLaws}
use network_final_project.Tests.Values.{toy_data, toy_view}
use network_final_project.Tests.Conversations.{
  both, writes, reads, hello_request, request_rest, reply_frame, at_100, at_120, replies_of,
  to_server, to_client, quiet_pool, always, request_sent, reply_sent, one_reply,
}

drain-responses_example :
    (pool : Pool (Task Json)) × (queue : List (Message Json)) × (read_loop both pads
        (λ p. 0)
        7
        always
        2
        to_server
        quiet_pool
      ≡ some pool)
    × (reader_loop both pads always 2 to_client [] ≡ some queue)
    × (drain both toy_data toy_view 2 queue initial_state
        ≡ (show_all both toy_data toy_view (replies_of pool.tasks) >> pure (some [])) initial_state)
drain-responses_example =
    drain-responses both (json_with-JsonLaws writes reads) toy_data toy_view whole_numbers at_100
      at_120 pads pads-EvpLaws (λ p. 0) 7 quiet_pool empty_db always (hello_request ∷ [])
      ((0 ∷ request_rest) ++ []) (reply_frame ++ []) to_server to_client 2 initial_state (λ n. refl)
      refl refl request_sent refl refl reply_sent refl refl (omega arith) one_reply

-- ===== src/Tests/Streams.antt =====
-- Runs of the loops of server/src/server.cpp and client/src/core.cpp on small streams.
use network_final_project.Base.{ℕ, ◌≡◌, refl, Bool, true, some, List, [], ◌∷◌, ◌++◌, arith}
use network_final_project.Base.Action.{ok}
use network_final_project.Codec.Frame.{encode_frame}
use network_final_project.Codec.Socket.{Event, arrived, interrupted}
use network_final_project.Codec.Socket.Reader.{frame_loop, frame_loop_ends}
use network_final_project.Codec.Socket.Messages.{IsSendable, Sends, silent, sends}
use network_final_project.Client.{Queue, push}
use network_final_project.Tests.Frames.{
  login_request, toy, small_frame, login_is_named, json_parsed, braces_are_valid, small_sealed,
}
use network_final_project.Tests.Toys.{Json, pads}

-- One byte, an EINTR, and the rest of the frame.
abbrev slow_stream : List Event
slow_stream =
    arrived (0 ∷ [])
    ∷ interrupted
    ∷ arrived (
        0 ∷ 0 ∷ 16 ∷ 123 ∷ 125 ∷ 14 ∷ 14 ∷ 14 ∷ 14 ∷ 14 ∷ 14 ∷ 14 ∷ 14 ∷ 14 ∷ 14 ∷ 14 ∷ 14 ∷ 14 ∷ 14
        ∷ [])
    ∷ []

login-IsSendable : IsSendable toy login_request
login-IsSendable = record {
  has_action = login_is_named;
  has_data = refl;
  has_status = refl;
  fits_clock = omega arith;
  parses = json_parsed;
  is_text = braces_are_valid;
  is_some_text = omega arith;
  fits = omega arith;
}

login_encoded : encode_frame toy pads login_request ≡ ok small_frame
unfolding encode_frame
login_encoded = small_sealed

login_sent : Sends toy pads (login_request ∷ []) (small_frame ++ [])
login_sent = sends login_request small_frame [] [] login-IsSendable login_encoded silent

abbrev set : ℕ → Bool
set n = true

frame_loop_ends_example :
    (queue : Queue Json) × (frame_loop toy pads push set 40 0 slow_stream [] ≡ some queue)
frame_loop_ends_example = frame_loop_ends toy pads push set 40 0 slow_stream [] (omega arith)

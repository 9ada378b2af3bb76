-- ===== src/Client/Life.antt =====
-- client/src/core.cpp: connect and disconnect of ClientCore.
use network_final_project.Base.{◌≡◌, Bool, true, false, arith, if◌then◌else◌}

-- `connected_`, whether `fd_` is a socket, and whether `reader_` is joinable.
pub record ClientLink : Type 0 where
  pub connected : Bool
  pub is_open : Bool
  pub joinable : Bool

abbrev pub new_client : ClientLink
new_client = record { connected = false; is_open = false; joinable = false }

-- How far a connect gets: socket(2), inet_pton(3) or connect(2) fails, or none of them does.
pub data Dialing : Type 0 where
  no_socket bad_host refused made : Dialing

-- connect returns false or true, or std::terminate is called, as the assignment of a std::thread to one
-- that is joinable does.
pub data Connecting : Type 0 where
  gives_up connects : ClientLink → Connecting
  terminates : Connecting

-- `disconnect` joins the reader, whose loop ends at the shutdown of the socket.
unfoldable pub disconnect : ClientLink → ClientLink
disconnect l = if l.connected then new_client else l

unfoldable pub connect : Dialing → ClientLink → Connecting
unfolding disconnect
connect no_socket l = gives_up (record (disconnect l) { is_open = false })
connect bad_host l = gives_up (record (disconnect l) { is_open = false })
connect refused l = gives_up (record (disconnect l) { is_open = false })
connect made l =
    if (disconnect l).joinable
    then terminates
    else connects (record { connected = true; is_open = true; joinable = true })

-- The end of reader_loop, when the server has closed the connection.
unfoldable pub reader_ends : ClientLink → ClientLink
reader_ends l = record l { connected = false }

-- The thread is joinable exactly while the client is connected.
abbrev IsTidy : ClientLink → Type 0
IsTidy l = l.joinable ≡ l.connected

abbrev IsTidyEnd : Connecting → Type 0
IsTidyEnd (gives_up l) = IsTidy l
IsTidyEnd (connects l) = IsTidy l
IsTidyEnd terminates = ⊥

-- A client whose thread is joinable exactly while it is connected comes back from every connect as
-- such a client.
connect-IsTidy : (d : Dialing) (l : ClientLink) → IsTidy l → IsTidyEnd (connect d l)
unfolding connect disconnect
connect-IsTidy no_socket l t = ground arith
connect-IsTidy bad_host l t = ground arith
connect-IsTidy refused l t = ground arith
connect-IsTidy made l t = ground arith

-- After the server has closed the connection of a client that was connected, its next connect that
-- reaches the server ends the process.
reconnect_terminates :
    (l : ClientLink) → l.joinable ≡ true → connect made (reader_ends l) ≡ terminates
unfolding connect disconnect reader_ends
reconnect_terminates l j = ground arith

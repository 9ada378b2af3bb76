-- ===== src/Server/Listener.antt =====
-- server/src/server.cpp: the start of a server, the connections that it accepts, and its stop.
use network_final_project.Base.{
  ℕ, ◌≡◌, refl, ◌∙◌, sym, ap, Bool, true, false, List, [], ◌∷◌, ◌++◌, arith, if◌then◌else◌,
}
use mathlib.Core.List.{append-nil, append_assoc}

-- The state of the class Server that its threads share. A connection is the descriptor it was made of.
pub record Listener : Type 0 where
  pub running : Bool
  pub listening : Bool
  pub connections : List ℕ

abbrev pub new_server : Listener
new_server = record { running = false; listening = false; connections = [] }

-- `listens` is whether create_listen_socket gives a socket.
unfoldable pub start_server : Bool → Listener → Bool × Listener
start_server listens s =
    if s.running
    then (true, s)
    else if listens
    then (true, record s { running = true; listening = true })
    else (false, record s { listening = false })

-- What accept(2) answers: a client, an EINTR, or another error.
pub data Accepted : Type 0 where
  client : ℕ → Accepted
  interrupted failed : Accepted

-- The loop of accept_loop, up to the answers of accept(2) that are left when `running_` is cleared.
unfoldable pub accept_all : List Accepted → Listener → Listener
accept_all [] s = s
accept_all (client fd ∷ rest) s =
    accept_all rest (record s { connections = s.connections ++ fd ∷ [] })
accept_all (interrupted ∷ rest) s = accept_all rest s
accept_all (failed ∷ rest) s = accept_all rest s

unfoldable pub accept_loop : List Accepted → Listener → Listener
accept_loop answers s = if s.running then accept_all answers s else s

-- `stop`, with the connections that close_all_connections stops, in order.
unfoldable pub stop_server : Listener → List ℕ × Listener
stop_server s =
    if s.running
    then (s.connections, record { running = false; listening = false; connections = [] })
    else ([], s)

abbrev clients : List Accepted → List ℕ
clients [] = []
clients (client fd ∷ rest) = fd ∷ clients rest
clients (interrupted ∷ rest) = clients rest
clients (failed ∷ rest) = clients rest

accept_all_lem :
    (answers : List Accepted) (s : Listener)
    → accept_all answers s ≡ record s { connections = s.connections ++ clients answers }
unfolding accept_all
accept_all_lem [] s = ap (λ cs. record s { connections = cs }) (sym (append-nil s.connections))
accept_all_lem (client fd ∷ rest) s =
    accept_all_lem rest (record s { connections = s.connections ++ fd ∷ [] })
    ∙ ap (λ cs. record s { connections = cs }) (append_assoc s.connections (fd ∷ []) (clients rest))
accept_all_lem (interrupted ∷ rest) s = accept_all_lem rest s
accept_all_lem (failed ∷ rest) s = accept_all_lem rest s

-- A server that started stops every connection that it accepted, once and in order, whatever errors
-- came between, and a second stop finds none.
stop_server-accept_loop :
    (answers : List Accepted)
    → (stop_server (accept_loop answers (start_server true new_server).1)
        ≡ (clients answers, new_server))
      × (stop_server new_server ≡ ([], new_server))
unfolding stop_server accept_loop start_server
stop_server-accept_loop answers = (
  ground (arith, accept_all_lem answers (record new_server { running = true; listening = true })),
  refl,
)

-- ===== src/Lib.antt =====
-- The online quiz: a C++ server that keeps accounts, rooms, exams and practice runs in SQLite, and
-- speaks encrypted frames of JSON with its clients.
--
-- Parts, and how they interact. A client's bytes are cut into frames and decrypted (common/src/codec.cpp,
-- common/src/aes_crypto.cpp), the JSON becomes a Message, and a handler of server/src/main.cpp calls
-- AuthService (server/src/auth.cpp) for the session and RoomManager (server/src/room.cpp) for the rest.
-- Both services work on the same database (data/schema.sql), each method under a mutex.
--
-- Which file models which part:
-- - Db: the tables of data/schema.sql as lists of rows in the order of insertion, with the next key of
--   each AUTOINCREMENT table. `double` is a type D with the operations the code calls (Floats).
-- - Db/Env: what comes from outside. SQLite's verdict on each statement, the clock, random numbers and
--   std::hash are the fields of Env, so that a theorem holds for every failure of SQLite.
-- - Crypto: common/src/crypto.cpp. Crypto/Hex reads hexadecimal back.
-- - Auth: the class AuthService. Each method is an action: a database in, a result and a database out.
--   A refusal carries the text that the source stores in *error. Auth/Accounts and Auth/Sessions hold
--   the theorems on register_user and login, and on validate and logout.
-- - Room: the class RoomManager. Room/Lifecycle has the rooms and their participants, Room/Questions
--   and Room/Paper the drawing of a paper in its transaction, Room/Grading the answers, submission and
--   expiry, Room/Practice the practice runs, Room/Reports and its children the results, history and details, and
--   Room/Timer the timer. Room/Calls joins the writing methods into one step function, whose histories
--   are the uses of the class, since a mutex orders them.
-- - Codec: common/src/codec.cpp. Codec/Json is the part of nlohmann::json that it calls, as a parameter
--   with the library's documented laws; Codec/Message, Codec/Utf8, Codec/Frame and Codec/Socket are its
--   functions. Codec/Aes is common/src/aes_crypto.cpp with OpenSSL's EVP calls as a parameter; their
--   documented behaviour is EvpLaws in Codec/Aes/Buffers.
-- - Handlers: the lambdas of server/src/main.cpp, one function for each action. A handler is a database
--   in, and a reply, a refusal with its error code, or an exception out, with the database that its calls
--   leave. Handlers/Access and Handlers/Rules say what it may change, Handlers/Replies what it sends.
-- - Server: the table of handlers and the task of handle_message in server/src/server.cpp; Server/Guard
--   and Server/Accounts compare it with what each session may do, Server/History is a run of messages,
--   Server/Answers the responses, Server/Connection the read loop and send, Server/Lifetime the threads
--   that start and stop a connection, Server/Listener the start and stop of the server, and Server/Conversation the way of
--   a request and its response.
-- - Client: client/src/core.cpp, its queue of events and its reader loop; Client/Life is its
--   connecting. Client/State is client/include/client/state.hpp, and Client/Window is
--   client/src/ui.cpp: handle_event and the loop that calls it. Client/Window/Buttons is what each
--   button changes and sends; its other children follow a button over the server and back.
--   Handlers/Fields has what nlohmann::json documents of the calls by which each side reads the
--   other's objects. Both reading loops are the frame_loop of Codec/Socket/Reader; Codec/Socket/Messages is
--   what it makes of the messages of the other side.
-- - ThreadPool: the class ThreadPool, whose critical sections are the steps of a relation between pools, with
--   the threads that fall asleep on the condition variable and those that a notification wakes.
--   ThreadPool/Order, ThreadPool/Shutdown and ThreadPool/Progress hold the theorems, and ThreadPool/Alert says who is awake.
-- - Scripts: scripts/seed.cpp, a run on a database with the questions of its source, and
--   scripts/echo_client.cpp, a run against the server.
-- - Base: the shared helpers. Tests: concrete runs, and instances of the parameters.
--
-- Numbers are natural numbers with the wrap-around of uint64_t and uint32_t written out; ids are
-- natural numbers, as the keys of SQLite start at 1. An int that may be negative is an integer of
-- Base/Int, whose overflow past 32 bits is not modelled. Loops are structural recursion. Four take fuel:
-- is_valid_utf8 takes the length of the text, since each round takes a byte, and to_hex takes 16, the
-- digits of a 64-bit value. frame_loop takes the number of its rounds: one more than the calls of
-- read(2) and the bytes of the stream is enough for every stream. The loop of the window over its
-- events takes its rounds: one more than the events that have come is enough. read_exact is recursion on what the
-- kernel answers.
--
-- SQLite's answer to a SELECT is modelled by the rows that match, in the order of the table; an UPDATE,
-- an INSERT and a DELETE change them when Env lets the step succeed. A text is bound up to its first NUL
-- (c_str in Base/Tests). The transaction of get_exam_paper keeps what stood there at the BEGIN, and each
-- ROLLBACK of the source brings it back when Env lets it succeed. Foreign keys are not enforced, as
-- the server's connections never turn them on.
--
-- The messages of Server/History are answered one after another. With several workers the calls of two
-- handlers may alternate; the histories of Room/Calls cover every such order of the calls of RoomManager.
--
-- Not modelled: an options_json or settings_json that json::parse refuses, which ends GET_EXAM_PAPER by an
-- exception before a question is stored and leaves its transaction open (the columns are written by dump,
-- and read as JSON texts here); the start-up of main and the setting up of sockets; what the window draws and the typing
-- into its fields, which are calls of Dear ImGui and SDL; what the seed program prints; the web
-- gateway, which is JavaScript; logging; the closing of handles; the libraries under third_party, whose
-- functions are parameters.
pub mod Base
pub mod Db
pub mod Crypto
pub mod Auth
pub mod Room
pub mod Codec
pub mod ThreadPool
pub mod Handlers
pub mod Server
pub mod Client
pub mod Scripts
pub mod Tests

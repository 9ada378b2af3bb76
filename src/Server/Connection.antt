-- ===== src/Server/Connection.antt =====
-- server/src/server.cpp: a connection, which reads messages for the workers and sends their answers.
use network_final_project.Base.{
  ℕ, ◌<◌, ◌≡◌, ◌∙◌, sym, ap, Bool, true, false, Option, some, List, [], ◌∷◌, ◌++◌, map, arith,
  length,
}
use mathlib.Core.List.{append-nil, append_assoc}
use network_final_project.Base.Action.{Result, ok, err}
use network_final_project.Codec.Json.{JsonApi, JsonLaws}
use network_final_project.Codec.Message.{Message}
use network_final_project.Codec.Aes.{Evp}
use network_final_project.Codec.Aes.Buffers.{EvpLaws}
use network_final_project.Codec.Frame.{encode_frame}
use network_final_project.Codec.Socket.{Event, Taking, write_frame}
use network_final_project.Codec.Socket.Stream.{bytes_of, is_live}
use network_final_project.Codec.Socket.Reader.{frame_loop}
use network_final_project.Codec.Socket.Messages.{Sends, arrival, take_all, frame_loop-Sends}
use network_final_project.ThreadPool.{Pool, enqueue}

-- A task of the pool is a message with the connection that its answer goes to.
abbrev pub Task : Type 0 → Type 0
Task J = ℕ × Message J

module _ {J : Type 0} (js : JsonApi J) (evp : Evp) where
  -- `Connection::send`: the bytes that went out, or what is logged.
  unfoldable pub send : List Taking → Message J → Result (List ℕ)
  send takings msg = elim (encode_frame js evp msg) [
    | err error ↦ err error
    | ok frame ↦ write_frame takings frame
  ]

  -- `pick` is the sleeping thread that `notify_one` wakes.
  abbrev pub handle_message : (Pool (Task J) → ℕ) → ℕ → Message J → Pool (Task J) → Pool (Task J)
  handle_message pick conn msg pool = enqueue (pick pool) (conn, msg) pool

  -- `alive n` is what the loop reads in `alive_` before the n-th frame.
  unfoldable pub read_loop :
      (Pool (Task J) → ℕ) → ℕ → (ℕ → Bool) → ℕ → List Event → Pool (Task J) → Option (Pool (Task J))
  read_loop pick conn alive fuel events pool =
      frame_loop js evp (handle_message pick conn) alive fuel 0 events pool

  handle_message-tasks :
      (pick : Pool (Task J) → ℕ) (conn : ℕ) (m : Message J) (pool : Pool (Task J))
      → pool.stopping ≡ false
      → ((handle_message pick conn m pool).stopping ≡ false)
        × ((handle_message pick conn m pool).tasks ≡ pool.tasks ++ (conn, m) ∷ [])
  unfolding enqueue
  handle_message-tasks pick conn m pool going = (ground arith, ground arith)

  handle_messages :
      (pick : Pool (Task J) → ℕ) (conn : ℕ) (ms : List (Message J)) (pool : Pool (Task J))
      → pool.stopping ≡ false
      → (take_all (handle_message pick conn) ms pool).tasks ≡ pool.tasks ++ map (λ m. (conn, m)) ms
  handle_messages pick conn [] pool going = sym (append-nil pool.tasks)
  handle_messages pick conn (m ∷ ms) pool going =
      let (still, added) = handle_message-tasks pick conn m pool going in
      handle_messages pick conn ms (handle_message pick conn m pool) still
      ∙ ap (λ tasks. tasks ++ map (λ m'. (conn, m')) ms) added
      ∙ append_assoc pool.tasks ((conn, m) ∷ []) (map (λ m'. (conn, m')) ms)

  -- When OpenSSL and the JSON library behave as documented, and neither the connection nor the pool
  -- is stopped: on a stream that carries the frames of these messages and then ends, however it is
  -- cut, the loop leaves one task for each of them behind the tasks of the pool, in the order in
  -- which they were sent, with one round more than there are messages.
  pub read_loop-Sends :
      EvpLaws evp
      → JsonLaws js
      → (pick : Pool (Task J) → ℕ) (conn : ℕ) (alive : ℕ → Bool) (ms : List (Message J))
        (bytes : List ℕ) (fuel : ℕ) (events : List Event) (pool : Pool (Task J))
      → ((n : ℕ) → alive n ≡ true)
      → pool.stopping ≡ false
      → Sends js evp ms bytes
      → is_live events ≡ true
      → bytes_of events ≡ bytes
      → length ms < fuel
      → (pool' : Pool (Task J)) × (read_loop pick conn alive fuel events pool ≡ some pool')
        × (pool'.tasks ≡ pool.tasks ++ map (λ m. (conn, m)) (map (arrival js) ms))
  unfolding read_loop
  read_loop-Sends evp_laws js_laws pick conn alive ms bytes fuel events pool lasts going sent live
        stream enough =
      (
        take_all (handle_message pick conn) (map (arrival js) ms) pool,
        frame_loop-Sends js evp evp_laws js_laws (handle_message pick conn) alive lasts ms bytes
            fuel 0 events pool sent live stream enough,
        handle_messages pick conn (map (arrival js) ms) pool going,
      )

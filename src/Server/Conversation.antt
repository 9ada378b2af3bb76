-- ===== src/Server/Conversation.antt =====
-- server/src/server.cpp, server/src/thread_pool.cpp and client/src/core.cpp together: a client sends
-- requests over its connection, a worker answers them, and the client takes the responses.
use network_final_project.Base.{
  ℕ, suc, ◌<◌, ◌≡◌, refl, ◌∙◌, sym, ap, Bool, true, false, some, List, [], ◌∷◌, ◌++◌, map, arith,
  length,
}
use network_final_project.Codec.Json.{JsonApi, JsonLaws}
use network_final_project.Codec.Message.{Message}
use network_final_project.Codec.Aes.{Evp}
use network_final_project.Codec.Aes.Buffers.{EvpLaws}
use network_final_project.Codec.Socket.{Event}
use network_final_project.Codec.Socket.Stream.{bytes_of, is_live}
use network_final_project.Codec.Socket.Messages.{Sends, sends, arrival}
use network_final_project.Db.{Db, Floats}
use network_final_project.Db.Env.{Env}
use network_final_project.ThreadPool.{Pool}
use network_final_project.Handlers.{JsonData}
use network_final_project.Server.{answer, main_handlers}
use network_final_project.Server.Answers.{IsResponse, answer-IsResponse}
use network_final_project.Server.Connection.{Task, read_loop, read_loop-Sends}
use network_final_project.Client.{reader_loop, pop_events, pop_events-reader_loop}

module _ {J D : Type 0} (js : JsonApi J) (jd : JsonData J D) (fl : Floats D) (env : ℕ → ℕ → Env)
    (clock : ℕ → ℕ → ℕ) where
  -- A worker takes the tasks of the queue from the i-th on, the oldest first. Each answer goes to the
  -- connection of its task.
  unfoldable pub answer_all : ℕ → List (Task J) → Db D → List (Task J) × Db D
  answer_all i [] db = ([], db)
  answer_all i ((conn, msg) ∷ tasks) db =
      let (resp, db') = answer js (main_handlers js jd fl) (env i) (clock i) msg db in
      let (later, last) = answer_all (suc i) tasks db' in ((conn, resp) ∷ later, last)

  -- The responses that the worker sends.
  abbrev pub responses : List (Task J) → Db D → List (Message J)
  responses tasks db = map (λ t. t.1) (answer_all 0 tasks db).0

module _ {J : Type 0} (js : JsonApi J) where
  abbrev AllObjects : List (Message J) → Type 0
  AllObjects [] = Unit
  AllObjects (m ∷ ms) = (js.is_object m.payload ≡ true) × AllObjects ms

  arrival-AllObjects :
      JsonLaws js
      → (evp : Evp) (ms : List (Message J)) (bytes : List ℕ) → Sends js evp ms bytes
      → AllObjects (map (arrival js) ms)
  arrival-AllObjects laws evp [] _ sent = tt
  arrival-AllObjects laws evp (m ∷ ms) _ (sends _ frame _ bytes good encoded others) =
      (ground (arith, good.has_data, laws.object_lem), arrival-AllObjects laws evp ms bytes others)

  arrival_actions :
      (ms : List (Message J)) → map (λ m. m.action) (map (arrival js) ms) ≡ map (λ m. m.action) ms
  arrival_actions [] = refl
  arrival_actions (m ∷ ms) = ap (◌∷◌ m.action) (arrival_actions ms)

  objects_arrive : JsonLaws js → (ms : List (Message J)) → AllObjects ms → map (arrival js) ms ≡ ms
  objects_arrive laws [] all = refl
  objects_arrive laws (m ∷ ms) all =
      ground (arith, objects_arrive laws ms all.1, laws.object_not_null m.payload all.0)

module _ {J D : Type 0} (js : JsonApi J) (laws : JsonLaws js) (jd : JsonData J D) (fl : Floats D)
    (env : ℕ → ℕ → Env) (clock : ℕ → ℕ → ℕ) where
  -- One response for each request, in the same order.
  answer_all_lem :
      (conn i : ℕ) (ms : List (Message J)) (db : Db D)
      → AllObjects js ms
      → (map (λ t. t.1.action) (answer_all js jd fl env clock i (map (λ m. (conn, m)) ms) db).0
          ≡ map (λ m. m.action) ms)
        × AllObjects js
            (map (λ t. t.1) (answer_all js jd fl env clock i (map (λ m. (conn, m)) ms) db).0)
  unfolding answer_all IsResponse
  answer_all_lem conn i [] db all = (refl, tt)
  answer_all_lem conn i (m ∷ ms) db all =
      let one = answer js (main_handlers js jd fl) (env i) (clock i) m db in
      let (kind, action, time, status, object) =
        answer-IsResponse js laws jd fl (env i) (clock i) m db all.0 in
      let (actions, objects) = answer_all_lem conn (suc i) ms one.1 all.1 in
      (
        ap (◌∷◌ one.0.action) actions ∙ ap (λ a. a ∷ map (λ k. k.action) ms) action,
        (object, objects),
      )

  actions_of :
      (tasks : List (Task J))
      → map (λ m. m.action) (map (λ t. t.1) tasks) ≡ map (λ t. t.1.action) tasks
  actions_of [] = refl
  actions_of (t ∷ tasks) = ap (◌∷◌ t.1.action) (actions_of tasks)

  -- When OpenSSL and the JSON library behave as documented and both sides stay connected: if a stream
  -- carries the requests of a client to the server, a worker answers the tasks that the read loop has
  -- left, and a stream carries its responses back, then, however both streams are cut, pop_event gives
  -- the client one response for each request and nothing more, in the order of the requests, each
  -- with the action of its request and as the worker has made it.
  pub pop_events-answer_all :
      (evp : Evp)
      → EvpLaws evp
      → (pick : Pool (Task J) → ℕ) (conn : ℕ) (pool : Pool (Task J)) (db : Db D) (set : ℕ → Bool)
        (ms : List (Message J)) (out back : List ℕ) (there here : List Event) (fuel : ℕ)
      → ((n : ℕ) → set n ≡ true)
      → pool.stopping ≡ false
      → pool.tasks ≡ []
      → Sends js evp ms out
      → is_live there ≡ true
      → bytes_of there ≡ out
      → Sends js evp
          (responses js jd fl env clock (map (λ m. (conn, m)) (map (arrival js) ms)) db)
          back
      → is_live here ≡ true
      → bytes_of here ≡ back
      → length ms < fuel
      → length (responses js jd fl env clock (map (λ m. (conn, m)) (map (arrival js) ms)) db) < fuel
      → (pool' : Pool (Task J)) × (queue : List (Message J)) × (read_loop js evp pick conn set fuel
            there pool
          ≡ some pool')
        × (reader_loop js evp set fuel here [] ≡ some queue)
        × (pop_events (length queue) queue
            ≡ (map some (responses js jd fl env clock pool'.tasks db), []))
        × (map (λ r. r.action) (responses js jd fl env clock pool'.tasks db)
            ≡ map (λ m. m.action) ms)
  pop_events-answer_all evp evp_laws pick conn pool db set ms out back there here fuel lasts going
        idle sent live stream answered live' stream' enough enough' =
      let arrived = map (arrival js) ms in
      let tasks = map (λ m. (conn, m)) arrived in
      let rs = responses js jd fl env clock tasks db in
      let (actions, objects) =
        answer_all_lem conn 0 arrived db (arrival-AllObjects js laws evp ms out sent) in
      let (queue, read, popped) =
        pop_events-reader_loop js evp evp_laws laws set rs back fuel here [] lasts answered live'
          stream' enough' in
      let (pool', looped, queued) =
        read_loop-Sends js evp evp_laws laws pick conn set ms out fuel there pool lasts going sent
          live stream enough in
      let left : pool'.tasks ≡ tasks = queued ∙ ap (λ ts. ts ++ tasks) idle in
      (
        pool',
        queue,
        looped,
        read,
        popped
            ∙ ap (λ qs. (map some qs, [])) (objects_arrive js laws rs objects)
            ∙ ap (λ ts. (map some (responses js jd fl env clock ts db), [])) (sym left),
        ap (λ ts. map (λ r. r.action) (responses js jd fl env clock ts db)) left
            ∙ actions_of (answer_all js jd fl env clock 0 tasks db).0
            ∙ actions
            ∙ arrival_actions js ms,
      )

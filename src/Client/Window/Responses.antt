-- ===== src/Client/Window/Responses.antt =====
-- server/src/server.cpp, server/src/thread_pool.cpp, client/src/core.cpp and client/src/ui.cpp together: from
-- the requests of a client to what its window shows of the responses.
use network_final_project.Base.{
  ℕ, ◌<◌, ◌≡◌, refl, sym, ap, ◌∙◌, Bool, true, false, some, List, [], ◌∷◌, map, arith, length,
  length-map,
}
use network_final_project.Base.Action.{pure, ◌>>◌}
use network_final_project.Codec.Json.{JsonApi, JsonLaws}
use network_final_project.Codec.Message.{Message}
use network_final_project.Codec.Aes.{Evp}
use network_final_project.Codec.Aes.Buffers.{EvpLaws}
use network_final_project.Codec.Socket.{Event}
use network_final_project.Codec.Socket.Stream.{bytes_of, is_live}
use network_final_project.Codec.Socket.Messages.{Sends, arrival}
use network_final_project.Db.{Db, Floats}
use network_final_project.Db.Env.{Env}
use network_final_project.ThreadPool.{Pool}
use network_final_project.Handlers.{JsonData}
use network_final_project.Server.Connection.{Task, read_loop}
use network_final_project.Server.Conversation.{responses, pop_events-answer_all}
use network_final_project.Client.{reader_loop, pop_all}
use network_final_project.Client.State.{ClientState}
use network_final_project.Client.Window.{JsonView, drain}
use network_final_project.Client.Window.Events.{show_all, drain-show_all}

somes_inj {ℓ} : {A : Type ℓ} (xs ys : List A) → map some xs ≡ map some ys → xs ≡ ys
somes_inj [] [] e = refl
somes_inj [] (y ∷ ys) e = absurd (ground arith)
somes_inj (x ∷ xs) [] e = absurd (ground arith)
somes_inj (x ∷ xs) (y ∷ ys) e = ground (arith, somes_inj xs ys)

module _ {J D : Type 0} (js : JsonApi J) (laws : JsonLaws js) (jd : JsonData J D) (jv : JsonView J)
    (fl : Floats D) (env : ℕ → ℕ → Env) (clock : ℕ → ℕ → ℕ) where
  -- When OpenSSL and the JSON library behave as documented and both sides stay connected: if a stream
  -- carries the requests of a client to the server, a worker answers the tasks that the read loop has
  -- left, and a stream carries its responses back, then, however both streams are cut, the loop of
  -- the window over the events ends, and it has handled the worker's responses, each once and in the
  -- order of the requests, up to the first whose handling throws.
  pub drain-responses :
      (evp : Evp)
      → EvpLaws evp
      → (pick : Pool (Task J) → ℕ) (conn : ℕ) (pool : Pool (Task J)) (db : Db D) (set : ℕ → Bool)
        (ms : List (Message J)) (out back : List ℕ) (there here : List Event) (fuel : ℕ)
        (st : ClientState)
      → ((n : ℕ) → set n ≡ true)
      → pool.stopping ≡ false
      → pool.tasks ≡ []
      → Sends js evp ms out
      → is_live there ≡ true
      → bytes_of there ≡ out
      → Sends js evp
          (responses js jd fl env clock (map (λ m. (conn, m)) (map (arrival js) ms)) db)
          back
      → is_live here ≡ true
      → bytes_of here ≡ back
      → length ms < fuel
      → length (responses js jd fl env clock (map (λ m. (conn, m)) (map (arrival js) ms)) db) < fuel
      → (pool' : Pool (Task J)) × (queue : List (Message J)) × (read_loop js evp pick conn set fuel
            there pool
          ≡ some pool')
        × (reader_loop js evp set fuel here [] ≡ some queue)
        × (drain js jd jv fuel queue st
            ≡ (show_all js jd jv (responses js jd fl env clock pool'.tasks db) >> pure (some []))
                st)
  drain-responses evp evp_laws pick conn pool db set ms out back there here fuel st lasts going idle
        sent live stream answered live' stream' enough enough' =
      let (pool', queue, read, taken, popped, actions) =
        pop_events-answer_all js laws jd fl env clock evp evp_laws pick conn pool db set ms out back
          there here fuel lasts going idle sent live stream answered live' stream' enough enough' in
      let rs = responses js jd fl env clock pool'.tasks db in
      let same = somes_inj queue rs (ap (λ p. p.0) (sym (pop_all queue) ∙ popped)) in
      let as_many : length rs ≡ length ms =
        sym (length-map (λ r. r.action) rs) ∙ ap length actions ∙ length-map (λ m. m.action) ms in
      (
        pool',
        queue,
        read,
        taken,
        ap (λ q. drain js jd jv fuel q st) same
            ∙ drain-show_all js jd jv fuel rs st (omega (arith, as_many)),
      )

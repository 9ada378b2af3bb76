-- ===== src/ThreadPool/Progress.antt =====
-- server/src/thread_pool.cpp: what the notifications of enqueue and shutdown are for.
use network_final_project.Base.{
  ℕ, suc, ◌≡◌, refl, Bool, true, false, not, some, List, [], ◌∷◌, arith, if◌then◌else◌, inl, inr,
  ◌⊎◌, any, ltb, length,
}
use network_final_project.ThreadPool.{
  Worker, looking, asleep, returned, running, Pool, new_pool, thread_at, set_thread, take_task,
  finish_task, return_thread, Run,
}
use network_final_project.ThreadPool.Shutdown.{
  is_returned, all_returned, IsDrained, Run-IsDrained, new_pool-IsDrained,
}
use network_final_project.ThreadPool.Alert.{
  is_asleep, is_awake, IsAlert, Run-IsAlert, new_pool-IsAlert,
}

module _ {T : Type 0} where
  abbrev is_busy : Worker T → Bool
  is_busy looking = true
  is_busy (running t) = true
  is_busy _ = false

  -- What a pool still has to do: the tasks of the queue, and the ends of its threads if it stops.
  abbrev pub has_work : Pool T → Bool
  has_work p = if p.stopping then not (all_returned p.threads) else ltb 0 (length p.tasks)

  any_busy_stopping :
      (ws : List (Worker T))
      → any is_asleep ws ≡ false
      → all_returned ws ≡ false
      → any is_busy ws ≡ true
  any_busy_stopping [] h k = absurd (ground arith)
  any_busy_stopping (w ∷ ws) h k = ground (arith, any_busy_stopping ws)

  any_busy_awake :
      (ws : List (Worker T))
      → any is_awake ws ≡ true
      → any is_returned ws ≡ false
      → any is_busy ws ≡ true
  any_busy_awake [] h k = absurd (ground arith)
  any_busy_awake (w ∷ ws) h k = ground (arith, any_busy_awake ws)

  any_busy-has_work :
      (p : Pool T) → IsAlert p → IsDrained p → has_work p ≡ true → any is_busy p.threads ≡ true
  any_busy-has_work p alert drained work =
      ground (arith, any_busy_stopping p.threads, any_busy_awake p.threads)

  busy_thread :
      (ws : List (Worker T))
      → any is_busy ws ≡ true
      → (i : ℕ) × (w : Worker T) × (thread_at i ws ≡ some w) × (is_busy w ≡ true)
  busy_thread [] h = absurd (ground arith)
  busy_thread (looking ∷ ws) h = (0, looking, refl, refl)
  busy_thread (running t ∷ ws) h = (0, running t, refl, refl)
  busy_thread (returned ∷ ws) h = let (i, w, at, busy) = busy_thread ws h in (suc i, w, at, busy)
  busy_thread (asleep ∷ ws) h = let (i, w, at, busy) = busy_thread ws h in (suc i, w, at, busy)

  -- A thread that is awake leads from one pool to the next: it takes a task, ends one or returns.
  abbrev pub Moves : ℕ → Pool T → Pool T → Type 0
  Moves i p p' =
      ((task : T) × (take_task i p ≡ some (task, p')))
      ⊎ ((finish_task i p ≡ some p') ⊎ (return_thread i p ≡ some p'))

  looking-Moves :
      (i : ℕ) (p : Pool T) (ts : List T)
      → has_work p ≡ true
      → thread_at i p.threads ≡ some looking
      → p.tasks ≡ ts
      → (p' : Pool T) × Moves i p p'
  unfolding take_task return_thread
  looking-Moves i p [] work at e =
      (record p { threads = set_thread i returned p.threads }, inr (inr (ground arith)))
  looking-Moves i p (t ∷ rest) work at e = (
    record p { tasks = rest; threads = set_thread i (running t) p.threads },
    inl (t, ground arith),
  )

  thread-Moves :
      (i : ℕ) (p : Pool T) (w : Worker T)
      → has_work p ≡ true
      → thread_at i p.threads ≡ some w
      → is_busy w ≡ true
      → (p' : Pool T) × Moves i p p'
  unfolding finish_task
  thread-Moves i p returned work at busy = absurd (ground arith)
  thread-Moves i p asleep work at busy = absurd (ground arith)
  thread-Moves i p (running t) work at busy =
      (record p { threads = set_thread i looking p.threads }, inr (inl (ground arith)))
  thread-Moves i p looking work at busy = looking-Moves i p p.tasks work at refl

  -- Whatever a new pool of any size goes through: while it runs and a task waits, or it stops and a
  -- thread has not returned, a thread that is awake can take a task, end one or return.
  pub has_work-Moves :
      (workers : ℕ) (q : Pool T) (accepted taken : List T)
      → Run (new_pool workers) accepted taken q
      → has_work q ≡ true
      → (i : ℕ) × (q' : Pool T) × Moves i q q'
  has_work-Moves workers q accepted taken run work =
      let alert = Run-IsAlert (new_pool workers) q accepted taken run (new_pool-IsAlert workers) in
      let drained =
        Run-IsDrained (new_pool workers) q accepted taken run (new_pool-IsDrained workers) in
      let (i, w, at, busy) = busy_thread q.threads (any_busy-has_work q alert drained work) in
      let (q', move) = thread-Moves i q w work at busy in (i, q', move)

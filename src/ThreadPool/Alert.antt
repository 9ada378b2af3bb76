-- ===== src/ThreadPool/Alert.antt =====
-- server/src/thread_pool.cpp: the threads that enqueue and shutdown wake.
use network_final_project.Base.{
  ℕ, zero, suc, ◌≡◌, refl, Bool, true, false, not, some, List, [], ◌∷◌, arith, inl, inr, ◌⊎◌, any,
  Option-cases,
}
use network_final_project.ThreadPool.{
  Worker, looking, asleep, returned, running, Pool, new_pool, enqueue, stop, thread_at, set_thread,
  notify_all, wake_first, notify_one, take_task, finish_task, return_thread, fall_asleep, wake_up,
  Run, rests, accepts, ignores, stops, takes, finishes, returns, sleeps, wakes,
}
use network_final_project.ThreadPool.Shutdown.{
  has_threads, has_threads-set_thread, has_threads-wake_first, has_threads-notify_all,
}

module _ {T : Type 0} where
  abbrev pub is_asleep : Worker T → Bool
  is_asleep asleep = true
  is_asleep _ = false

  abbrev pub is_awake : Worker T → Bool
  is_awake w = not (is_asleep w)

  -- While the pool stops no thread is asleep, and otherwise some thread is awake while a task waits.
  abbrev pub IsAlert : Pool T → Type 0
  IsAlert p =
      (has_threads p.threads ≡ true)
      × (((p.stopping ≡ true) × (any is_asleep p.threads ≡ false))
          ⊎ ((p.stopping ≡ false) × ((p.tasks ≡ []) ⊎ (any is_awake p.threads ≡ true))))

  set_thread-any_asleep :
      (i : ℕ) (v : Worker T) (ws : List (Worker T))
      → is_asleep v ≡ false
      → any is_asleep ws ≡ false
      → any is_asleep (set_thread i v ws) ≡ false
  set_thread-any_asleep i v [] h k = refl
  set_thread-any_asleep zero v (w ∷ ws) h k = ground arith
  set_thread-any_asleep (suc i) v (w ∷ ws) h k = ground (arith, set_thread-any_asleep i v ws h)

  set_thread-any_awake :
      (i : ℕ) (v w : Worker T) (ws : List (Worker T))
      → is_asleep v ≡ false
      → thread_at i ws ≡ some w
      → any is_awake (set_thread i v ws) ≡ true
  set_thread-any_awake i v w [] h at = absurd (ground arith)
  set_thread-any_awake zero v w (x ∷ ws) h at = ground arith
  set_thread-any_awake (suc i) v w (x ∷ ws) h at =
      ground (arith, set_thread-any_awake i v w ws h at)

  wake_first-any_awake :
      (ws : List (Worker T)) → has_threads ws ≡ true → any is_awake (wake_first ws) ≡ true
  wake_first-any_awake [] h = absurd (ground arith)
  wake_first-any_awake (w ∷ ws) h = ground arith

  notify_all-any_asleep : (ws : List (Worker T)) → any is_asleep (notify_all ws) ≡ false
  notify_all-any_asleep [] = refl
  notify_all-any_asleep (w ∷ ws) = ground (arith, notify_all-any_asleep ws)

  enqueue-IsAlert : (k : ℕ) (task : T) (p : Pool T) → IsAlert p → IsAlert (enqueue k task p)
  unfolding enqueue notify_one
  enqueue-IsAlert k task p v = ground (
    arith,
    set_thread-any_awake k looking asleep p.threads refl,
    has_threads-set_thread k looking p.threads,
    wake_first-any_awake p.threads,
    has_threads-wake_first p.threads,
  )

  stop-IsAlert : (p : Pool T) → IsAlert p → IsAlert (stop p)
  unfolding stop
  stop-IsAlert p v =
      ground (arith, notify_all-any_asleep p.threads, has_threads-notify_all p.threads)

  take_task-IsAlert :
      (i : ℕ) (p p' : Pool T) (task : T) → take_task i p ≡ some (task, p') → IsAlert p → IsAlert p'
  unfolding take_task
  take_task-IsAlert i p p' task h v = ground (
    arith,
    set_thread-any_asleep i (running task) p.threads refl,
    set_thread-any_awake i (running task) looking p.threads refl,
    has_threads-set_thread i (running task) p.threads,
  )

  finish_task-IsAlert : (i : ℕ) (p p' : Pool T) → finish_task i p ≡ some p' → IsAlert p → IsAlert p'
  unfolding finish_task
  finish_task-IsAlert i p p' h v = elim (Option-cases (thread_at i p.threads)) [
    | inl gone ↦ absurd (ground arith)
    | inr (w, at) ↦ ground (
      arith,
      set_thread-any_asleep i looking p.threads refl,
      set_thread-any_awake i looking w p.threads refl at,
      has_threads-set_thread i looking p.threads,
    )
  ]

  return_thread-IsAlert :
      (i : ℕ) (p p' : Pool T) → return_thread i p ≡ some p' → IsAlert p → IsAlert p'
  unfolding return_thread
  return_thread-IsAlert i p p' h v = ground (
    arith,
    set_thread-any_asleep i returned p.threads refl,
    has_threads-set_thread i returned p.threads,
  )

  fall_asleep-IsAlert : (i : ℕ) (p p' : Pool T) → fall_asleep i p ≡ some p' → IsAlert p → IsAlert p'
  unfolding fall_asleep
  fall_asleep-IsAlert i p p' h v = ground (arith, has_threads-set_thread i asleep p.threads)

  wake_up-IsAlert : (i : ℕ) (p p' : Pool T) → wake_up i p ≡ some p' → IsAlert p → IsAlert p'
  unfolding wake_up
  wake_up-IsAlert i p p' h v = ground (
    arith,
    set_thread-any_asleep i looking p.threads refl,
    set_thread-any_awake i looking asleep p.threads refl,
    has_threads-set_thread i looking p.threads,
  )

  pub Run-IsAlert :
      (p q : Pool T) (accepted taken : List T) → Run p accepted taken q → IsAlert p → IsAlert q
  Run-IsAlert p _ _ _ (rests _) v = v
  Run-IsAlert p q _ taken (accepts k _ _ task accepted _ going run) v =
      Run-IsAlert (enqueue k task p) q accepted taken run (enqueue-IsAlert k task p v)
  Run-IsAlert p q accepted taken (ignores k _ _ task _ _ closed run) v =
      Run-IsAlert (enqueue k task p) q accepted taken run (enqueue-IsAlert k task p v)
  Run-IsAlert p q accepted taken (stops _ _ _ _ run) v =
      Run-IsAlert (stop p) q accepted taken run (stop-IsAlert p v)
  Run-IsAlert p q accepted _ (takes i _ p' _ task _ taken h run) v =
      Run-IsAlert p' q accepted taken run (take_task-IsAlert i p p' task h v)
  Run-IsAlert p q accepted taken (finishes i _ p' _ _ _ h run) v =
      Run-IsAlert p' q accepted taken run (finish_task-IsAlert i p p' h v)
  Run-IsAlert p q accepted taken (returns i _ p' _ _ _ h run) v =
      Run-IsAlert p' q accepted taken run (return_thread-IsAlert i p p' h v)
  Run-IsAlert p q accepted taken (sleeps i _ p' _ _ _ h run) v =
      Run-IsAlert p' q accepted taken run (fall_asleep-IsAlert i p p' h v)
  Run-IsAlert p q accepted taken (wakes i _ p' _ _ _ h run) v =
      Run-IsAlert p' q accepted taken run (wake_up-IsAlert i p p' h v)

  pub new_pool-IsAlert : (workers : ℕ) → IsAlert (new_pool {T = T} workers)
  unfolding new_pool
  new_pool-IsAlert zero = (refl, inr (refl, inl refl))
  new_pool-IsAlert (suc n) = ground arith

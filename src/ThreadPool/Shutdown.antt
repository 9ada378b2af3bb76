-- ===== src/ThreadPool/Shutdown.antt =====
-- server/src/thread_pool.cpp: the end of a shutdown.
use network_final_project.Base.{
  ℕ, zero, suc, ◌≡◌, refl, sym, ap, ◌∙◌, Bool, true, false, some, List, [], ◌∷◌, ◌++◌, arith,
  if◌then◌else◌, inl, inr, ◌⊎◌, any,
}
use mathlib.Core.List.{append-nil}
use network_final_project.ThreadPool.{
  Worker, looking, asleep, returned, running, Pool, idle_threads, new_pool, enqueue, stop,
  set_thread, notify_all, wake_first, notify_one, take_task, finish_task, return_thread,
  fall_asleep, wake_up, Run, rests, accepts, ignores, stops, takes, finishes, returns, sleeps,
  wakes,
}
use network_final_project.ThreadPool.Order.{tasks_in_order}

module _ {T : Type 0} where
  abbrev pub is_returned : Worker T → Bool
  is_returned returned = true
  is_returned _ = false

  abbrev pub all_returned : List (Worker T) → Bool
  all_returned [] = true
  all_returned (w ∷ ws) = let rest = all_returned ws in if is_returned w then rest else false

  abbrev pub has_threads : List (Worker T) → Bool
  has_threads [] = false
  has_threads (w ∷ ws) = true

  -- There are threads, and one that has returned leaves no task behind.
  abbrev pub IsDrained : Pool T → Type 0
  IsDrained p =
      (has_threads p.threads ≡ true)
      × ((any is_returned p.threads ≡ false) ⊎ ((p.stopping ≡ true) × (p.tasks ≡ [])))

  any_returned-set_thread :
      (i : ℕ) (v : Worker T) (ws : List (Worker T))
      → is_returned v ≡ false
      → any is_returned ws ≡ false
      → any is_returned (set_thread i v ws) ≡ false
  any_returned-set_thread i v [] h k = refl
  any_returned-set_thread zero v (w ∷ ws) h k = ground arith
  any_returned-set_thread (suc i) v (w ∷ ws) h k = ground (arith, any_returned-set_thread i v ws h)

  pub has_threads-set_thread :
      (i : ℕ) (v : Worker T) (ws : List (Worker T))
      → has_threads (set_thread i v ws) ≡ has_threads ws
  has_threads-set_thread i v [] = refl
  has_threads-set_thread zero v (w ∷ ws) = refl
  has_threads-set_thread (suc i) v (w ∷ ws) = refl

  any_returned-wake_first :
      (ws : List (Worker T)) → any is_returned (wake_first ws) ≡ any is_returned ws
  any_returned-wake_first [] = refl
  any_returned-wake_first (asleep ∷ ws) = refl
  any_returned-wake_first (looking ∷ ws) = any_returned-wake_first ws
  any_returned-wake_first (returned ∷ ws) = refl
  any_returned-wake_first (running t ∷ ws) = any_returned-wake_first ws

  pub has_threads-wake_first : (ws : List (Worker T)) → has_threads (wake_first ws) ≡ has_threads ws
  has_threads-wake_first [] = refl
  has_threads-wake_first (w ∷ ws) = ground arith

  any_returned-notify_all :
      (ws : List (Worker T)) → any is_returned (notify_all ws) ≡ any is_returned ws
  any_returned-notify_all [] = refl
  any_returned-notify_all (w ∷ ws) = ground (arith, any_returned-notify_all ws)

  pub has_threads-notify_all : (ws : List (Worker T)) → has_threads (notify_all ws) ≡ has_threads ws
  has_threads-notify_all [] = refl
  has_threads-notify_all (w ∷ ws) = ground arith

  enqueue-IsDrained : (k : ℕ) (task : T) (p : Pool T) → IsDrained p → IsDrained (enqueue k task p)
  unfolding enqueue notify_one
  enqueue-IsDrained k task p v = ground (
    arith,
    any_returned-set_thread k looking p.threads refl,
    has_threads-set_thread k looking p.threads,
    any_returned-wake_first p.threads,
    has_threads-wake_first p.threads,
  )

  stop-IsDrained : (p : Pool T) → IsDrained p → IsDrained (stop p)
  unfolding stop
  stop-IsDrained p v =
      ground (arith, any_returned-notify_all p.threads, has_threads-notify_all p.threads)

  take_task-IsDrained :
      (i : ℕ) (p p' : Pool T) (task : T)
      → take_task i p ≡ some (task, p')
      → IsDrained p
      → IsDrained p'
  unfolding take_task
  take_task-IsDrained i p p' task h v = ground (
    arith,
    any_returned-set_thread i (running task) p.threads refl,
    has_threads-set_thread i (running task) p.threads,
  )

  finish_task-IsDrained :
      (i : ℕ) (p p' : Pool T) → finish_task i p ≡ some p' → IsDrained p → IsDrained p'
  unfolding finish_task
  finish_task-IsDrained i p p' h v = ground (
    arith,
    any_returned-set_thread i looking p.threads refl,
    has_threads-set_thread i looking p.threads,
  )

  return_thread-IsDrained :
      (i : ℕ) (p p' : Pool T) → return_thread i p ≡ some p' → IsDrained p → IsDrained p'
  unfolding return_thread
  return_thread-IsDrained i p p' h v = ground (arith, has_threads-set_thread i returned p.threads)

  fall_asleep-IsDrained :
      (i : ℕ) (p p' : Pool T) → fall_asleep i p ≡ some p' → IsDrained p → IsDrained p'
  unfolding fall_asleep
  fall_asleep-IsDrained i p p' h v = ground (
    arith,
    any_returned-set_thread i asleep p.threads refl,
    has_threads-set_thread i asleep p.threads,
  )

  wake_up-IsDrained : (i : ℕ) (p p' : Pool T) → wake_up i p ≡ some p' → IsDrained p → IsDrained p'
  unfolding wake_up
  wake_up-IsDrained i p p' h v = ground (
    arith,
    any_returned-set_thread i looking p.threads refl,
    has_threads-set_thread i looking p.threads,
  )

  pub Run-IsDrained :
      (p q : Pool T) (accepted taken : List T) → Run p accepted taken q → IsDrained p → IsDrained q
  Run-IsDrained p _ _ _ (rests _) v = v
  Run-IsDrained p q _ taken (accepts k _ _ task accepted _ going run) v =
      Run-IsDrained (enqueue k task p) q accepted taken run (enqueue-IsDrained k task p v)
  Run-IsDrained p q accepted taken (ignores k _ _ task _ _ closed run) v =
      Run-IsDrained (enqueue k task p) q accepted taken run (enqueue-IsDrained k task p v)
  Run-IsDrained p q accepted taken (stops _ _ _ _ run) v =
      Run-IsDrained (stop p) q accepted taken run (stop-IsDrained p v)
  Run-IsDrained p q accepted _ (takes i _ p' _ task _ taken h run) v =
      Run-IsDrained p' q accepted taken run (take_task-IsDrained i p p' task h v)
  Run-IsDrained p q accepted taken (finishes i _ p' _ _ _ h run) v =
      Run-IsDrained p' q accepted taken run (finish_task-IsDrained i p p' h v)
  Run-IsDrained p q accepted taken (returns i _ p' _ _ _ h run) v =
      Run-IsDrained p' q accepted taken run (return_thread-IsDrained i p p' h v)
  Run-IsDrained p q accepted taken (sleeps i _ p' _ _ _ h run) v =
      Run-IsDrained p' q accepted taken run (fall_asleep-IsDrained i p p' h v)
  Run-IsDrained p q accepted taken (wakes i _ p' _ _ _ h run) v =
      Run-IsDrained p' q accepted taken run (wake_up-IsDrained i p p' h v)

  any_returned-idle_threads :
      (n : ℕ) (ws : List (Worker T)) → ws ≡ idle_threads n → any is_returned ws ≡ false
  any_returned-idle_threads zero ws e = ap (any is_returned) e
  any_returned-idle_threads (suc n) ws e =
      ap (any is_returned) e ∙ any_returned-idle_threads n (idle_threads n) refl

  pub new_pool-IsDrained : (workers : ℕ) → IsDrained (new_pool {T = T} workers)
  unfolding new_pool
  new_pool-IsDrained zero = (refl, inl refl)
  new_pool-IsDrained (suc n) =
      ground (arith, any_returned-idle_threads (suc n) (idle_threads (suc n)) refl)

  all_returned_drained : (q : Pool T) → IsDrained q → all_returned q.threads ≡ true → q.tasks ≡ []
  all_returned_drained q (some_thread, inr (stopped, empty)) all = empty
  all_returned_drained q (some_thread, inl none_back) all =
      absurd (nobody q.threads some_thread none_back all)
    where
      nobody :
          (ws : List (Worker T))
          → has_threads ws ≡ true
          → any is_returned ws ≡ false
          → all_returned ws ≡ true
          → ⊥
      nobody [] h k a = ground arith
      nobody (w ∷ ws) h k a = ground arith

  new_pool-tasks : (workers : ℕ) → (new_pool {T = T} workers).tasks ≡ []
  unfolding new_pool
  new_pool-tasks workers = refl

  -- Whatever a new pool of any size goes through, once every thread has returned, as after the joins
  -- of a shutdown, the tasks that were started are those that were accepted, once each and in order.
  pub shutdown_drains :
      (workers : ℕ) (q : Pool T) (accepted taken : List T)
      → Run (new_pool workers) accepted taken q
      → all_returned q.threads ≡ true
      → taken ≡ accepted
  shutdown_drains workers q accepted taken run all =
      let drained =
        Run-IsDrained (new_pool workers) q accepted taken run (new_pool-IsDrained workers) in
      sym (append-nil taken)
      ∙ ap (λ ts. taken ++ ts) (sym (all_returned_drained q drained all))
      ∙ sym (tasks_in_order (new_pool workers) q accepted taken run)
      ∙ ap (λ ts. ts ++ accepted) (new_pool-tasks workers)

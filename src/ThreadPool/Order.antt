-- ===== src/ThreadPool/Order.antt =====
-- server/src/thread_pool.cpp: the order in which tasks start.
use network_final_project.Base.{ℕ, ◌≡◌, sym, ap, ◌∙◌, true, false, some, List, [], ◌∷◌, ◌++◌, arith}
use mathlib.Core.List.{append-nil, append_assoc}
use network_final_project.ThreadPool.{
  Pool, enqueue, stop, take_task, finish_task, return_thread, fall_asleep, wake_up, Run, rests,
  accepts, ignores, stops, takes, finishes, returns, sleeps, wakes,
}

module _ {T : Type 0} where
  take_task-tasks :
      (i : ℕ) (p p' : Pool T) (task : T)
      → take_task i p ≡ some (task, p')
      → p.tasks ≡ task ∷ p'.tasks
  unfolding take_task
  take_task-tasks i p p' task h = ground arith

  finish_task-tasks : (i : ℕ) (p p' : Pool T) → finish_task i p ≡ some p' → p.tasks ≡ p'.tasks
  unfolding finish_task
  finish_task-tasks i p p' h = ground arith

  return_thread-tasks : (i : ℕ) (p p' : Pool T) → return_thread i p ≡ some p' → p.tasks ≡ p'.tasks
  unfolding return_thread
  return_thread-tasks i p p' h = ground arith

  fall_asleep-tasks : (i : ℕ) (p p' : Pool T) → fall_asleep i p ≡ some p' → p.tasks ≡ p'.tasks
  unfolding fall_asleep
  fall_asleep-tasks i p p' h = ground arith

  wake_up-tasks : (i : ℕ) (p p' : Pool T) → wake_up i p ≡ some p' → p.tasks ≡ p'.tasks
  unfolding wake_up
  wake_up-tasks i p p' h = ground arith

  stop-tasks : (p : Pool T) → (stop p).tasks ≡ p.tasks
  unfolding stop
  stop-tasks p = ground arith

  enqueue-tasks :
      (k : ℕ) (task : T) (p : Pool T)
      → p.stopping ≡ false
      → (enqueue k task p).tasks ≡ p.tasks ++ task ∷ []
  unfolding enqueue
  enqueue-tasks k task p h = ground arith

  enqueue_stopping : (k : ℕ) (task : T) (p : Pool T) → p.stopping ≡ true → enqueue k task p ≡ p
  unfolding enqueue
  enqueue_stopping k task p h = ground arith

  -- Threads take the tasks that were waiting, then those that were accepted, in that order; the last
  -- of them are still waiting.
  pub tasks_in_order :
      (p q : Pool T) (accepted taken : List T)
      → Run p accepted taken q
      → p.tasks ++ accepted ≡ taken ++ q.tasks
  tasks_in_order p _ _ _ (rests _) = append-nil p.tasks
  tasks_in_order p q _ taken (accepts k _ _ task accepted _ going run) =
      sym (append_assoc p.tasks (task ∷ []) accepted)
      ∙ ap (λ ts. ts ++ accepted) (sym (enqueue-tasks k task p going))
      ∙ tasks_in_order (enqueue k task p) q accepted taken run
  tasks_in_order p q accepted taken (ignores k _ _ task _ _ closed run) =
      ap (λ r. r.tasks ++ accepted) (sym (enqueue_stopping k task p closed))
      ∙ tasks_in_order (enqueue k task p) q accepted taken run
  tasks_in_order p q accepted taken (stops _ _ _ _ run) =
      ap (λ ts. ts ++ accepted) (sym (stop-tasks p)) ∙ tasks_in_order (stop p) q accepted taken run
  tasks_in_order p q accepted _ (takes i _ p' _ task _ taken h run) =
      ap (λ ts. ts ++ accepted) (take_task-tasks i p p' task h)
      ∙ ap (◌∷◌ task) (tasks_in_order p' q accepted taken run)
  tasks_in_order p q accepted taken (finishes i _ p' _ _ _ h run) =
      ap (λ ts. ts ++ accepted) (finish_task-tasks i p p' h)
      ∙ tasks_in_order p' q accepted taken run
  tasks_in_order p q accepted taken (returns i _ p' _ _ _ h run) =
      ap (λ ts. ts ++ accepted) (return_thread-tasks i p p' h)
      ∙ tasks_in_order p' q accepted taken run
  tasks_in_order p q accepted taken (sleeps i _ p' _ _ _ h run) =
      ap (λ ts. ts ++ accepted) (fall_asleep-tasks i p p' h)
      ∙ tasks_in_order p' q accepted taken run
  tasks_in_order p q accepted taken (wakes i _ p' _ _ _ h run) =
      ap (λ ts. ts ++ accepted) (wake_up-tasks i p p' h) ∙ tasks_in_order p' q accepted taken run

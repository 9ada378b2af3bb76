-- ===== src/ThreadPool.antt =====
-- server/src/thread_pool.cpp: the queue of tasks and the workers. The mutex makes each operation on
-- the queue one step, and the notification that follows it belongs to the step; T is the type of
-- tasks, whose bodies run outside the mutex.
pub mod Order
pub mod Shutdown
pub mod Alert
pub mod Progress
use network_final_project.Base.{
  ℕ, zero, suc, Bool, true, false, Option, none, some, List, [], ◌∷◌, ◌++◌, if◌then◌else◌, ◌==◌,
  ◌≡◌,
}

-- What a thread is at: about to look at the predicate of `cv_.wait`, asleep in it, in a task, or back
-- from `worker_loop`.
pub data Worker (T : Type 0) : Type 0 where
  looking asleep returned : Worker T
  running : T → Worker T

pub record Pool (T : Type 0) : Type 0 where
  pub tasks : List T
  pub stopping : Bool
  pub threads : List (Worker T)

module _ {T : Type 0} where
  abbrev pub idle_threads : ℕ → List (Worker T)
  idle_threads zero = []
  idle_threads (suc n) = looking ∷ idle_threads n

  unfoldable pub new_pool : ℕ → Pool T
  new_pool workers = record {
    tasks = [];
    stopping = false;
    threads = idle_threads (if workers == 0 then 1 else workers);
  }

  abbrev pub thread_at : ℕ → List (Worker T) → Option (Worker T)
  thread_at i [] = none
  thread_at zero (w ∷ ws) = some w
  thread_at (suc i) (w ∷ ws) = thread_at i ws

  abbrev pub set_thread : ℕ → Worker T → List (Worker T) → List (Worker T)
  set_thread i v [] = []
  set_thread zero v (w ∷ ws) = v ∷ ws
  set_thread (suc i) v (w ∷ ws) = w ∷ set_thread i v ws

  -- `cv_.notify_all()`
  abbrev pub notify_all : List (Worker T) → List (Worker T)
  notify_all [] = []
  notify_all (asleep ∷ ws) = looking ∷ notify_all ws
  notify_all (w ∷ ws) = w ∷ notify_all ws

  abbrev pub wake_first : List (Worker T) → List (Worker T)
  wake_first [] = []
  wake_first (asleep ∷ ws) = looking ∷ ws
  wake_first (w ∷ ws) = w ∷ wake_first ws

  -- `cv_.notify_one()`: one of the threads that are asleep wakes, if there is any. Which one is the
  -- system's choice: the thread `chosen`, or the first where that one is not asleep.
  unfoldable pub notify_one : ℕ → List (Worker T) → List (Worker T)
  notify_one chosen ws = elim (thread_at chosen ws) [
    | some asleep ↦ set_thread chosen looking ws
    | _ ↦ wake_first ws
  ]

  unfoldable pub enqueue : ℕ → T → Pool T → Pool T
  enqueue chosen task pool =
      if pool.stopping
      then pool
      else record pool { tasks = pool.tasks ++ task ∷ []; threads = notify_one chosen pool.threads }

  -- `shutdown` up to the joins, which wait until every thread has returned.
  unfoldable pub stop : Pool T → Pool T
  stop pool =
      if pool.stopping
      then pool
      else record pool { stopping = true; threads = notify_all pool.threads }

  -- A thread that looks finds a task, the oldest of the queue.
  unfoldable pub take_task : ℕ → Pool T → Option (T × Pool T)
  take_task i pool = elim (thread_at i pool.threads) [
    | some looking ↦ elim pool.tasks [
      | [] ↦ none
      | task ∷ rest ↦
          some
            (task, record pool { tasks = rest; threads = set_thread i (running task) pool.threads })
    ]
    | _ ↦ none
  ]

  -- Its task returns, and the loop starts over.
  unfoldable pub finish_task : ℕ → Pool T → Option (Pool T)
  finish_task i pool = elim (thread_at i pool.threads) [
    | some (running task) ↦ some (record pool { threads = set_thread i looking pool.threads })
    | _ ↦ none
  ]

  -- A thread that looks finds a pool that stops and has no task.
  unfoldable pub return_thread : ℕ → Pool T → Option (Pool T)
  return_thread i pool = elim (thread_at i pool.threads) [
    | some looking ↦ elim pool.tasks [
      | [] ↦
          if pool.stopping
          then some (record pool { threads = set_thread i returned pool.threads })
          else none
      | _ ↦ none
    ]
    | _ ↦ none
  ]

  -- A thread that looks finds neither, and falls asleep.
  unfoldable pub fall_asleep : ℕ → Pool T → Option (Pool T)
  fall_asleep i pool = elim (thread_at i pool.threads) [
    | some looking ↦ elim pool.tasks [
      | [] ↦
          if pool.stopping
          then none
          else some (record pool { threads = set_thread i asleep pool.threads })
      | _ ↦ none
    ]
    | _ ↦ none
  ]

  -- A wakeup without a notification, which std::condition_variable allows.
  unfoldable pub wake_up : ℕ → Pool T → Option (Pool T)
  wake_up i pool = elim (thread_at i pool.threads) [
    | some asleep ↦ some (record pool { threads = set_thread i looking pool.threads })
    | _ ↦ none
  ]

-- What happens to a pool from the first state to the last: the tasks that enqueue accepts and those
-- that threads take, in order.
pub data Run {T : Type 0} : Pool T → List T → List T → Pool T → Type 0 where
  rests : (p : Pool T) → Run p [] [] p
  accepts :
      (chosen : ℕ) (p q : Pool T) (task : T) (accepted taken : List T)
      → p.stopping ≡ false
      → Run (enqueue chosen task p) accepted taken q
      → Run p (task ∷ accepted) taken q
  ignores :
      (chosen : ℕ) (p q : Pool T) (task : T) (accepted taken : List T)
      → p.stopping ≡ true
      → Run (enqueue chosen task p) accepted taken q
      → Run p accepted taken q
  stops :
      (p q : Pool T) (accepted taken : List T)
      → Run (stop p) accepted taken q
      → Run p accepted taken q
  takes :
      (i : ℕ) (p p' q : Pool T) (task : T) (accepted taken : List T)
      → take_task i p ≡ some (task, p')
      → Run p' accepted taken q
      → Run p accepted (task ∷ taken) q
  finishes :
      (i : ℕ) (p p' q : Pool T) (accepted taken : List T)
      → finish_task i p ≡ some p'
      → Run p' accepted taken q
      → Run p accepted taken q
  returns :
      (i : ℕ) (p p' q : Pool T) (accepted taken : List T)
      → return_thread i p ≡ some p'
      → Run p' accepted taken q
      → Run p accepted taken q
  sleeps :
      (i : ℕ) (p p' q : Pool T) (accepted taken : List T)
      → fall_asleep i p ≡ some p'
      → Run p' accepted taken q
      → Run p accepted taken q
  wakes :
      (i : ℕ) (p p' q : Pool T) (accepted taken : List T)
      → wake_up i p ≡ some p'
      → Run p' accepted taken q
      → Run p accepted taken q

-- ===== src/Tests/Threads.antt =====
-- A pool of server/src/thread_pool.cpp with one thread: two tasks, a shutdown, and a task too late.
use network_final_project.Base.{List, ℕ, ◌≡◌, refl, true, [], ◌∷◌, ◌++◌}
use network_final_project.ThreadPool.{
  looking, returned, running, Pool, new_pool, notify_one, enqueue, stop, take_task, finish_task,
  return_thread, fall_asleep, Run, rests, accepts, ignores, stops, takes, finishes, returns, sleeps,
}
use network_final_project.ThreadPool.Order.{tasks_in_order}
use network_final_project.ThreadPool.Shutdown.{shutdown_drains}
use network_final_project.ThreadPool.Progress.{Moves, has_work-Moves}

abbrev two_jobs : List ℕ
two_jobs = 7 ∷ 8 ∷ []

abbrev last_job : List ℕ
last_job = 8 ∷ []

abbrev closed_pool : Pool ℕ
closed_pool = record { tasks = []; stopping = true; threads = returned ∷ [] }

abbrev busy_pool : Pool ℕ
busy_pool = record { tasks = 8 ∷ []; stopping = true; threads = running 7 ∷ [] }

late_task : Run busy_pool [] (8 ∷ []) closed_pool
unfolding enqueue take_task finish_task return_thread
late_task = ignores 0 _ _ 9 _ _ refl (
    finishes 0 _ _ _ _ _ refl (
      takes 0 _ _ _ 8 _ _ refl
        (finishes 0 _ _ _ _ _ refl (returns 0 _ _ _ _ _ refl (rests closed_pool)))))

a_shutdown : Run (new_pool 0) (7 ∷ 8 ∷ []) (7 ∷ 8 ∷ []) closed_pool
unfolding new_pool notify_one enqueue stop take_task
a_shutdown =
    accepts 0 _ _ 7 _ _ refl
      (accepts 0 _ _ 8 _ _ refl (takes 0 _ _ _ 7 _ _ refl (stops _ _ _ _ late_task)))

abbrev woken_pool : Pool ℕ
woken_pool = record { tasks = []; stopping = true; threads = looking ∷ [] }

-- A shutdown that finds the thread asleep.
stopped_asleep : Run (new_pool 0) [] [] woken_pool
unfolding new_pool fall_asleep stop
stopped_asleep = sleeps 0 _ _ _ _ _ refl (stops _ _ _ _ (rests woken_pool))

tasks_in_order_example : last_job ++ [] ≡ last_job ++ []
tasks_in_order_example = tasks_in_order busy_pool closed_pool [] last_job late_task

shutdown_drains_example : two_jobs ≡ two_jobs
shutdown_drains_example = shutdown_drains 0 closed_pool two_jobs two_jobs a_shutdown refl

has_work-Moves_example : (i : ℕ) × (p' : Pool ℕ) × Moves i woken_pool p'
has_work-Moves_example = has_work-Moves 0 woken_pool [] [] stopped_asleep refl

-- ===== src/Tests/Pools.antt =====
-- The theorems on the sizes of the pool at a pool of eight workers.
use ant_cache.Workers.{
  Task, response, Event, submits, enqueues, dispatches, hands_over, finishes, stops, quits_at,
  WorkerPool, new_worker_pool, happen, happen_all, submit, pick, quit_at,
}
use ant_cache.Workers.Accounts.{IsAccounted, happen_all-IsAccounted}
use ant_cache.Base.{◌≡◌, refl, false, some, List, [], ◌∷◌, arith, codes}
use ant_cache.Pool.{GoroutinePool, new_goroutine_pool, check_and_scale}
use ant_cache.Pool.Scaling.{IsBounded, new_goroutine_pool-IsBounded, check_and_scale-IsBounded}

abbrev eight : GoroutinePool
eight = new_goroutine_pool 8 0

eight-IsBounded : IsBounded eight
eight-IsBounded = new_goroutine_pool-IsBounded 8 0 (omega arith)

abbrev busy : GoroutinePool
busy = record eight { queued = 9; active_workers = 8 }

busy-IsBounded : IsBounded busy
unfolding new_goroutine_pool
busy-IsBounded = record { least = omega arith; most = omega arith; room = omega arith }

check_and_scale-IsBounded_example : IsBounded (check_and_scale busy 6000000000)
check_and_scale-IsBounded_example = check_and_scale-IsBounded busy 6000000000 busy-IsBounded

abbrev ping : Task
ping = record { id = 1; payload = codes "PING"; conn_id = 7 }

abbrev quit_task : Task
quit_task = record { id = 2; payload = codes "QUIT"; conn_id = 7 }

abbrev events : List Event
events =
    submits (codes "PING") 7
    ∷ submits (codes "QUIT") 7
    ∷ enqueues 0
    ∷ enqueues 0
    ∷ dispatches
    ∷ hands_over 0
    ∷ dispatches
    ∷ stops
    ∷ finishes 0 (response (codes "PONG"))
    ∷ quits_at 0
    ∷ hands_over 0
    ∷ []

-- The second task is handed to the worker that has quit.
abbrev emptied : WorkerPool
emptied = record {
  max_workers = 1;
  task_id = 2;
  offered = [];
  task_queue = [];
  held = [];
  worker_queue = [];
  busy = [];
  stuck = quit_task ∷ [];
  finished = record { task = ping; outcome = response (codes "PONG") } ∷ [];
  rejected = [];
  dispatching = false;
  quits = 0;
}

events_happen : happen_all events (new_worker_pool 1) ≡ some emptied
unfolding happen_all happen submit pick quit_at new_worker_pool
events_happen = refl

happen_all-IsAccounted_example : IsAccounted emptied
happen_all-IsAccounted_example = happen_all-IsAccounted 1 events emptied (omega arith) events_happen

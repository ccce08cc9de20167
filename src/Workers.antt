-- ===== src/Workers.antt =====
-- tcpserver/worker_pool.go (`payload` is the field Data): the worker pool as a state machine. The dispatcher, its goroutines, the
-- workers and Stop each make one step at a time, in an order that is not known; `none` stands for a
-- step that is not possible in the state.
pub mod Places
pub mod Accounts
use ant_cache.Base.{
  replicate, ◌%◌, ◌^◌, ℕ, zero, suc, ◌+◌, ◌-◌, ◌*◌, ◌≤◌, ◌<◌, ◌≡◌, refl, sym, ap, ◌∙◌, ◌≢◌, ◌⊎◌,
  inl, inr, Bool, true, false, not, ◌&&◌, ◌||◌, Option, none, some, List, [], ◌∷◌, ◌++◌, arith, ℤ,
  pos, negsuc, if◌then◌else◌, Text, codes, text_eq, Table, lookup, insert, erase, length, ltb_ℤ,
  ◌==◌, is_some, Bool-cases, Option-cases, All, lookup-insert, lookup-erase, text_eq_iff,
  text_eq_refl, leb, ltb, join, ◌<ℤ◌,
}

pub record Task : Type 0 where
  pub id : ℕ
  pub payload : Text
  pub conn_id : ℕ

-- What ProcessTask gives.
pub data Outcome : Type 0 where
  response : Text → Outcome
  failure : Text → Outcome

pub record Finished : Type 0 where
  pub task : Task
  pub outcome : Outcome

-- A worker whose TaskQueue stands in the WorkerQueue: it waits there, or it has quit since.
pub data Registered : Type 0 where
  waits has_quit : Registered

-- `offered` are the tasks of calls of SubmitTask that wait for a place in the TaskQueue. `held` are the tasks of the dispatcher's goroutines that have no worker yet, `stuck` those that
-- wait on the TaskQueue of a worker that has quit, `busy` those that workers process, and `rejected`
-- those that met a full queue. `quits` counts the sends of Stop on the workers' QuitChan.
pub record WorkerPool : Type 0 where
  pub max_workers : ℕ
  pub task_id : ℕ
  pub offered : List Task
  pub task_queue : List Task
  pub held : List Task
  pub worker_queue : List Registered
  pub busy : List Task
  pub stuck : List Task
  pub finished : List Finished
  pub rejected : List Task
  pub dispatching : Bool
  pub quits : ℕ

-- The pool once all its workers have registered.
unfoldable pub new_worker_pool : ℕ → WorkerPool
new_worker_pool max_workers = record {
  max_workers = max_workers;
  task_id = 0;
  offered = [];
  task_queue = [];
  held = [];
  worker_queue = replicate max_workers waits;
  busy = [];
  stuck = [];
  finished = [];
  rejected = [];
  dispatching = true;
  quits = 0;
}

-- The element at a place, and the others.
unfoldable pub pick : {A : Type 0} → ℕ → List A → Option (A × List A)
pick i [] = none
pick zero (x ∷ xs) = some (x, xs)
pick (suc i) (x ∷ xs) = elim (pick i xs) [ some (y, ys) ↦ some (y, x ∷ ys) | none ↦ none ]

-- SubmitTask up to its select: the next number, a uint64, under the lock.
unfoldable pub submit : Text → ℕ → WorkerPool → WorkerPool
submit payload conn_id p =
    let id = (p.task_id + 1) % 2 ^ 64 in
    let task : Task = record { id = id; payload = payload; conn_id = conn_id } in
    record p { task_id = id; offered = p.offered ++ task ∷ [] }

-- The TaskQueue takes the task of a call that waits.
abbrev pub enqueue : WorkerPool → Option (Task × List Task) → Option WorkerPool
enqueue p none = none
enqueue p (some (task, others)) =
    if ltb (length p.task_queue) (p.max_workers * 10)
    then some (record p { offered = others; task_queue = p.task_queue ++ task ∷ [] })
    else none

-- The second of a call is over while the queue is full; its task gets an error.
abbrev pub time_out : WorkerPool → Option (Task × List Task) → Option WorkerPool
time_out p none = none
time_out p (some (task, others)) =
    if ltb (length p.task_queue) (p.max_workers * 10)
    then none
    else some (record p { offered = others; rejected = p.rejected ++ task ∷ [] })

abbrev pub dispatch_from : WorkerPool → List Task → Option WorkerPool
dispatch_from p [] = none
dispatch_from p (task ∷ tasks) =
    if p.dispatching
    then some (record p { task_queue = tasks; held = p.held ++ task ∷ [] })
    else none

-- A goroutine of the dispatcher takes the first TaskQueue and sends its task there.
abbrev pub send_task : WorkerPool → Task → List Task → List Registered → Option WorkerPool
send_task p task others [] = none
send_task p task others (waits ∷ queue) =
    some (record p { held = others; worker_queue = queue; busy = p.busy ++ task ∷ [] })
send_task p task others (has_quit ∷ queue) =
    some (record p { held = others; worker_queue = queue; stuck = p.stuck ++ task ∷ [] })

abbrev pub hand_over : WorkerPool → Option (Task × List Task) → Option WorkerPool
hand_over p none = none
hand_over p (some (task, others)) = send_task p task others p.worker_queue

-- A worker sends what ProcessTask gave and registers again.
abbrev pub finish : WorkerPool → Outcome → Option (Task × List Task) → Option WorkerPool
finish p outcome none = none
finish p outcome (some (task, others)) = some (record p {
  busy = others;
  finished = p.finished ++ record { task = task; outcome = outcome } ∷ [];
  worker_queue = p.worker_queue ++ waits ∷ [];
})

-- The dispatcher sees QuitChan: it stops each worker and returns.
abbrev pub stop : WorkerPool → Option WorkerPool
stop p =
    if p.dispatching
    then some (record p { dispatching = false; quits = p.quits + p.max_workers })
    else none

-- The place in the queue of a worker that quits.
unfoldable pub quit_at : ℕ → List Registered → Option (List Registered)
quit_at i [] = none
quit_at zero (waits ∷ ws) = some (has_quit ∷ ws)
quit_at zero (has_quit ∷ ws) = none
quit_at (suc i) (w ∷ ws) = elim (quit_at i ws) [ some vs ↦ some (w ∷ vs) | none ↦ none ]

abbrev pub quit : WorkerPool → Option (List Registered) → Option WorkerPool
quit p none = none
quit p (some queue) =
    if p.quits == 0 then none else some (record p { worker_queue = queue; quits = p.quits - 1 })

pub data Event : Type 0 where
  submits : Text → ℕ → Event
  enqueues times_out : ℕ → Event
  dispatches : Event
  hands_over : ℕ → Event
  finishes : ℕ → Outcome → Event
  stops : Event
  quits_at : ℕ → Event

unfoldable pub happen : Event → WorkerPool → Option WorkerPool
unfolding submit pick quit_at
happen (submits payload conn_id) p = some (submit payload conn_id p)
happen (enqueues i) p = enqueue p (pick i p.offered)
happen (times_out i) p = time_out p (pick i p.offered)
happen dispatches p = dispatch_from p p.task_queue
happen (hands_over i) p = hand_over p (pick i p.held)
happen (finishes i outcome) p = finish p outcome (pick i p.busy)
happen stops p = stop p
happen (quits_at i) p = quit p (quit_at i p.worker_queue)

unfoldable pub happen_all : List Event → WorkerPool → Option WorkerPool
unfolding happen
happen_all [] p = some p
happen_all (e ∷ es) p = elim (happen e p) [ some q ↦ happen_all es q | none ↦ none ]

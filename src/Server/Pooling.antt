-- ===== src/Server/Pooling.antt =====
-- tcpserver/pooled_goroutine_server.go: the PooledGoroutineServer struct with its accept loop, the
-- workers of its pool with handleConnectionTask, and Stop. As in Server/Accepting, an event is what
-- one of the goroutines does next.
pub mod Places
pub mod Accounts
pub mod Closed
pub mod Serving
use ant_cache.Base.{
  Table, codes, ◌%◌, ◌^◌, replicate, ℕ, zero, suc, ◌+◌, ◌-◌, ◌*◌, ◌≤◌, ◌<◌, ◌≡◌, refl, sym, ap, ◌∙◌,
  ◌≢◌, ◌⊎◌, inl, inr, Bool, true, false, not, ◌&&◌, ◌||◌, Option, none, some, List, [], ◌∷◌, ◌++◌,
  arith, ℤ, pos, negsuc, if◌then◌else◌, Text, text_eq, lookup, insert, erase, length, ltb_ℤ, ◌==◌,
  is_some, Bool-cases, Option-cases, All, lookup-insert, lookup-erase, text_eq_iff, text_eq_refl,
  leb, ltb, join, ◌<ℤ◌,
}
use ant_cache.Item.{Compression}
use ant_cache.Cache.{Cache}
use ant_cache.Pool
use ant_cache.Pool.{GoroutinePool, new_goroutine_pool, update_task_time, check_and_scale}
use ant_cache.Server.{Server, Answer}
use ant_cache.Server.Pooled.{process_command_direct}
use ant_cache.Server.Session.{Received}
use ant_cache.Server.Accepting.{
  Connection, increment, decrement, authenticated_of, authenticate, leave,
}

-- `task_chan` holds the numbers of the connections that wait and `none` for each nil task; `busy` are
-- the connections that a worker handles, and `idle` the workers that wait for a task. `spawned` are the
-- goroutines of workers that have not begun, `exited` those that have returned. The accept loop has a
-- connection in `submitting` while SubmitTask waits, and is `checking` between its send to the channel
-- and checkAndScale. `done` and `turned_away` are the numbers of the connections whose task has ended
-- and of those that the full channel did not take.
pub record PooledServer (z : Compression) : Type 0 where
  pub cache : Cache z
  pub pool : GoroutinePool
  pub task_chan : List (Option ℕ)
  pub busy : List Connection
  pub spawned : ℕ
  pub idle : ℕ
  pub exited : ℕ
  pub running : Bool
  pub accepting : Bool
  pub submitting : Option ℕ
  pub checking : Bool
  pub stopped : Bool
  pub accepted : ℕ
  pub total_connections : ℕ
  pub active_connections : ℕ
  pub total_requests : ℕ
  pub total_responses : ℕ
  pub rejected_tasks : ℕ
  pub done : List ℕ
  pub turned_away : List ℕ

pub data Event : Type 0 where
  accepts accept_fails enqueues times_out begins takes quits stops : Event
  checks : ℕ → Event
  receives : ℕ → Received → ℕ → Event
  ends : ℕ → ℕ → Event

module _ {z : Compression} where
  unfoldable pub new_pooled_goroutine_server : Cache z → ℕ → ℕ → PooledServer z
  new_pooled_goroutine_server c pool_size now = record {
    cache = c;
    pool = new_goroutine_pool pool_size now;
    task_chan = [];
    busy = [];
    spawned = 0;
    idle = 0;
    exited = 0;
    running = false;
    accepting = false;
    submitting = none;
    checking = false;
    stopped = false;
    accepted = 0;
    total_connections = 0;
    active_connections = 0;
    total_requests = 0;
    total_responses = 0;
    rejected_tasks = 0;
    done = [];
    turned_away = [];
  }

  -- Start, where the port can be listened on, up to the loop.
  unfoldable pub start : PooledServer z → PooledServer z
  start st = record st {
    running = true;
    accepting = true;
    pool = Pool.start st.pool;
    spawned = st.spawned + st.pool.worker_count;
  }

  -- The accept loop gets a connection and counts it; SubmitTask counts its task and then waits.
  unfoldable pub accept : PooledServer z → PooledServer z
  accept st = record st {
    pool = record st.pool { total_tasks = st.pool.total_tasks + 1 };
    submitting = some st.accepted;
    accepted = st.accepted + 1;
    total_connections = increment st.total_connections;
    active_connections = increment st.active_connections;
  }

  -- The channel takes the task.
  unfoldable pub submit : ℕ → PooledServer z → PooledServer z
  submit n st = record st {
    pool = record st.pool { queued = st.pool.queued + 1 };
    task_chan = st.task_chan ++ some n ∷ [];
    submitting = none;
    checking = true;
  }

  -- The time is over while the channel is full, and the accept loop closes the connection.
  unfoldable pub reject : ℕ → PooledServer z → PooledServer z
  reject n st = record st {
    pool = record st.pool { rejected_tasks = st.pool.rejected_tasks + 1 };
    submitting = none;
    accepting = st.running;
    rejected_tasks = increment st.rejected_tasks;
    active_connections = decrement st.active_connections;
    turned_away = n ∷ st.turned_away;
  }

  -- checkAndScale, which starts goroutines and sends nil tasks; then the loop goes on.
  unfoldable pub check : ℕ → PooledServer z → PooledServer z
  check now st =
      let pool = check_and_scale st.pool now in
      record st {
        pool = pool;
        task_chan = st.task_chan ++ replicate (pool.stop_signals - st.pool.stop_signals) none;
        spawned = st.spawned + (pool.started - st.pool.started);
        checking = false;
        accepting = st.running;
      }

  unfoldable pub begin : PooledServer z → PooledServer z
  begin st = record st {
    pool = record st.pool { active_workers = st.pool.active_workers + 1 };
    spawned = st.spawned - 1;
    idle = st.idle + 1;
  }

  -- The deferred functions of worker.
  unfoldable pub exit : PooledServer z → PooledServer z
  exit st = record st {
    pool = record st.pool { active_workers = st.pool.active_workers - 1 };
    idle = st.idle - 1;
    exited = st.exited + 1;
  }

  abbrev pub received : List (Option ℕ) → PooledServer z → PooledServer z
  received rest st = record st {
    pool = record st.pool { queued = st.pool.queued - 1 };
    task_chan = rest;
  }

  -- An idle worker receives from the channel; the nil task ends it.
  unfoldable pub take_task : List (Option ℕ) → PooledServer z → PooledServer z
  unfolding exit
  take_task [] st = st
  take_task (none ∷ rest) st = exit (received rest st)
  take_task (some n ∷ rest) st = record (received rest st) {
    busy = record { number = n; authenticated = false } ∷ st.busy;
    idle = st.idle - 1;
  }

  -- handleConnectionTask ends after `duration`, and its worker is idle again.
  unfoldable pub finish : ℕ → ℕ → PooledServer z → PooledServer z
  finish n duration st = record st {
    pool =
        update_task_time (record st.pool { completed_tasks = st.pool.completed_tasks + 1 })
          duration;
    busy = leave n st.busy;
    done = n ∷ st.done;
    idle = st.idle + 1;
    active_connections = decrement st.active_connections;
  }

  unfoldable pub asked : ℕ → Answer z → PooledServer z → PooledServer z
  asked n a st = record st {
    cache = a.reply.cache;
    busy = authenticate n a.authenticated st.busy;
    total_requests = increment st.total_requests;
  }

  -- A round of the loop of handleTextConnectionTask; a response that cannot be written ends the task,
  -- after `duration`.
  unfoldable pub receive :
      Server z → ℕ → Received → ℕ → PooledServer z → Option Bool → Option (PooledServer z)
  receive s n l duration st none = some st
  receive s n l duration st (some authenticated) =
      let answered : Option (PooledServer z) =
        elim (process_command_direct s st.cache l.now authenticated l.text) [
          | some a ↦
              let st1 = asked n a st in
              if l.writable
              then some (record st1 { total_responses = increment st1.total_responses })
              else some (finish n duration st1)
          | none ↦ none
        ] in
      if text_eq l.text [] then some st else answered

  -- A second Stop closes the pool's `stop_chan` again, which panics. Stop waits for the workers.
  unfoldable pub stop : PooledServer z → Option (PooledServer z)
  stop st = if st.stopped then none else some (record st { running = false; stopped = true })

  unfoldable pub happen : Server z → Event → PooledServer z → Option (PooledServer z)
  unfolding accept submit reject check begin take_task exit receive finish stop
  happen s accepts st =
      if st.accepting && not st.checking && not (is_some st.submitting)
      then some (accept st)
      else some st
  happen s accept_fails st =
      if st.checking || is_some st.submitting
      then some st
      else some (record st { accepting = st.accepting && st.running })
  happen s enqueues st = elim st.submitting [
    | some n ↦ if ltb st.pool.queued st.pool.capacity then some (submit n st) else some st
    | none ↦ some st
  ]
  happen s times_out st = elim st.submitting [
    | some n ↦ if ltb st.pool.queued st.pool.capacity then some st else some (reject n st)
    | none ↦ some st
  ]
  happen s (checks now) st = if st.checking then some (check now st) else some st
  happen s begins st = if ltb 0 st.spawned then some (begin st) else some st
  happen s takes st = if ltb 0 st.idle then some (take_task st.task_chan st) else some st
  happen s quits st = if st.stopped && ltb 0 st.idle then some (exit st) else some st
  happen s (receives n l duration) st = receive s n l duration st (authenticated_of n st.busy)
  happen s (ends n duration) st = elim (authenticated_of n st.busy) [
    | some _ ↦ some (finish n duration st)
    | none ↦ some st
  ]
  happen s stops st = stop st

  unfoldable pub happen_all : Server z → List Event → PooledServer z → Option (PooledServer z)
  unfolding happen
  happen_all s [] st = some st
  happen_all s (e ∷ es) st = elim (happen s e st) [ some st1 ↦ happen_all s es st1 | none ↦ none ]

-- The pool's entries under their new names.
abbrev pub prefixed : Table ℕ → Table ℕ
prefixed [] = []
prefixed ((name, n) ∷ rest) = (codes "pool_" ++ name, n) ∷ prefixed rest

unfoldable pub get_stats : {z : Compression} → PooledServer z → Table ℕ
get_stats st =
    (codes "total_connections", st.total_connections)
    ∷ (codes "active_connections", st.active_connections)
    ∷ (codes "total_requests", st.total_requests)
    ∷ (codes "total_responses", st.total_responses)
    ∷ (codes "rejected_tasks", st.rejected_tasks)
    ∷ prefixed (Pool.get_stats st.pool)

-- ===== src/Server/Pooling/Accounts.antt =====
-- tcpserver/pooled_goroutine_server.go: where the connections and the workers of the server are.
use ant_cache.Base.{
  ◌%◌, ◌^◌, replicate, length-replicate, length-append, ℕ, ◌+◌, ◌-◌, ◌<◌, ◌≡◌, sym, ap, ◌∙◌, Bool,
  ltb, Option, none, some, List, [], ◌∷◌, ◌++◌, arith, length,
}
use ant_cache.Item.{Compression}
use ant_cache.Cache.Valid.{IsValid}
use ant_cache.Pool.{update_task_time, check_and_scale}
use ant_cache.Pool.Checking.{Checked, check_and_scale-Checked}
use ant_cache.Pool.Scaling.{IsBounded, check_and_scale-IsBounded}
use ant_cache.Server.{Answer}
use ant_cache.Server.Accepting.{increment, decrement, authenticated_of, leave}
use ant_cache.Server.Accepting.Counting.{
  increment_mod, decrement_mod, length-leave, length-authenticate,
}
use ant_cache.Server.Pooling.{
  PooledServer, accept, submit, reject, check, begin, exit, received, take_task, finish, asked,
}
use ant_cache.Server.Pooling.Places.{
  waiting, waiting-append, waiting-replicate, one, waits, offered, places, waits-append,
  waits-replicate, handled-leave, handled-authenticate, pending,
}

-- Every connection that was accepted is in one place: each number that was given out stands once at the
-- accept loop, in the channel, with a worker, among those that are done or among those that were
-- turned away, and no other number stands there. So is every worker that was started; the counters say
-- so, and the pool is within its bounds.
pub record IsPooling {z : Compression} (st : PooledServer z) : Type 0 where
  pub valid : IsValid st.cache
  pub bounded : IsBounded st.pool
  pub once : (n : ℕ) → places n st ≡ one (ltb n st.accepted)
  pub queued : st.pool.queued ≡ length st.task_chan
  pub active :
      st.active_connections
      ≡ (pending st.submitting + waiting st.task_chan + length st.busy) % 2 ^ 64
  pub total : st.total_connections ≡ st.accepted % 2 ^ 64
  pub refused : st.rejected_tasks ≡ st.pool.rejected_tasks % 2 ^ 64
  pub tasks : st.pool.total_tasks ≡ st.accepted
  pub completed : st.pool.completed_tasks ≡ length st.done
  pub rejected : st.pool.rejected_tasks ≡ length st.turned_away
  pub workers : st.pool.started ≡ st.spawned + st.idle + length st.busy + st.exited
  pub active_workers : st.pool.active_workers ≡ st.idle + length st.busy

module _ {z : Compression} (st : PooledServer z) (v : IsPooling st) where
  pub accept-IsPooling : st.submitting ≡ none → IsPooling (accept st)
  unfolding accept
  accept-IsPooling free = record {
    valid = v.valid;
    bounded = record { least = v.bounded.least; most = v.bounded.most; room = v.bounded.room };
    once = λ n. ground (arith, v.once n, ap (offered n) free);
    queued = v.queued;
    active =
        ap increment v.active
        ∙ increment_mod (pending st.submitting + waiting st.task_chan + length st.busy)
        ∙ ap (λ k. k % 2 ^ 64) (omega (arith, ap pending free));
    total = ap increment v.total ∙ increment_mod st.accepted;
    refused = v.refused;
    tasks = omega (arith, v.tasks);
    completed = v.completed;
    rejected = v.rejected;
    workers = v.workers;
    active_workers = v.active_workers;
  }

  pub submit-IsPooling :
      (m : ℕ) → st.submitting ≡ some m → st.pool.queued < st.pool.capacity → IsPooling (submit m st)
  unfolding submit
  submit-IsPooling m held room =
      let more = waiting-append st.task_chan (some m ∷ []) in
      record {
        valid = v.valid;
        bounded = record { least = v.bounded.least; most = v.bounded.most; room = omega arith };
        once = λ n.
            omega (arith, v.once n, waits-append n st.task_chan (some m ∷ []), ap (offered n) held);
        queued = omega (arith, v.queued, length-append st.task_chan (some m ∷ []));
        active = v.active ∙ ap (λ k. k % 2 ^ 64) (omega (arith, more, ap pending held));
        total = v.total;
        refused = v.refused;
        tasks = v.tasks;
        completed = v.completed;
        rejected = v.rejected;
        workers = v.workers;
        active_workers = v.active_workers;
      }

  pub reject-IsPooling : (m : ℕ) → st.submitting ≡ some m → IsPooling (reject m st)
  unfolding reject
  reject-IsPooling m held = record {
    valid = v.valid;
    bounded = record { least = v.bounded.least; most = v.bounded.most; room = v.bounded.room };
    once = λ n. omega (arith, v.once n, ap (offered n) held);
    queued = v.queued;
    active =
        ap decrement (v.active ∙ ap (λ k. k % 2 ^ 64) (omega (arith, ap pending held)))
        ∙ decrement_mod (0 + waiting st.task_chan + length st.busy);
    total = v.total;
    refused = ap increment v.refused ∙ increment_mod st.pool.rejected_tasks;
    tasks = v.tasks;
    completed = v.completed;
    rejected = omega (arith, v.rejected);
    workers = v.workers;
    active_workers = v.active_workers;
  }

  pub check-IsPooling : (now : ℕ) → IsPooling (check now st)
  unfolding check
  check-IsPooling now =
      let gp = check_and_scale st.pool now in
      let c : Checked st.pool gp = check_and_scale-Checked st.pool now in
      let m = gp.stop_signals - st.pool.stop_signals in
      let nil_task : Option ℕ = none in
      let same : waiting (st.task_chan ++ replicate m none) ≡ waiting st.task_chan =
        omega (arith, waiting-append st.task_chan (replicate m none), waiting-replicate m) in
      record {
        valid = v.valid;
        bounded = check_and_scale-IsBounded st.pool now v.bounded;
        queued = omega (
          arith,
          v.queued,
          c.signalled,
          c.more_signals,
          length-append st.task_chan (replicate m none),
          length-replicate m nil_task,
        );
        active =
            v.active ∙ ap (λ k. (pending st.submitting + k + length st.busy) % 2 ^ 64) (sym same);
        completed = c.completed ∙ v.completed;
        rejected = c.rejected ∙ v.rejected;
        once = λ n.
            omega (
              arith,
              v.once n,
              waits-append n st.task_chan (replicate m none),
              waits-replicate n m,
            );
        total = v.total;
        refused = v.refused ∙ ap (λ k. k % 2 ^ 64) (sym c.rejected);
        tasks = c.total ∙ v.tasks;
        workers = omega (arith, v.workers, c.more_started);
        active_workers = c.active ∙ v.active_workers;
      }

  pub begin-IsPooling : 0 < st.spawned → IsPooling (begin st)
  unfolding begin
  begin-IsPooling some_spawned = record {
    valid = v.valid;
    bounded = record { least = v.bounded.least; most = v.bounded.most; room = v.bounded.room };
    queued = v.queued;
    active = v.active;
    total = v.total;
    refused = v.refused;
    tasks = v.tasks;
    once = v.once;
    completed = v.completed;
    rejected = v.rejected;
    workers = omega (arith, v.workers);
    active_workers = omega (arith, v.active_workers);
  }

  pub exit-IsPooling : 0 < st.idle → IsPooling (exit st)
  unfolding exit
  exit-IsPooling some_idle = record {
    valid = v.valid;
    bounded = record { least = v.bounded.least; most = v.bounded.most; room = v.bounded.room };
    queued = v.queued;
    active = v.active;
    total = v.total;
    refused = v.refused;
    tasks = v.tasks;
    once = v.once;
    completed = v.completed;
    rejected = v.rejected;
    workers = omega (arith, v.workers);
    active_workers = omega (arith, v.active_workers);
  }

  pub received-IsPooling :
      (rest : List (Option ℕ)) → st.task_chan ≡ none ∷ rest → IsPooling (received rest st)
  received-IsPooling rest e = record {
    valid = v.valid;
    bounded = record {
      least = v.bounded.least;
      most = v.bounded.most;
      room = omega (arith, v.bounded.room);
    };
    queued = omega (arith, v.queued, ap length e);
    active =
        v.active ∙ ap (λ chan. (pending st.submitting + waiting chan + length st.busy) % 2 ^ 64) e;
    total = v.total;
    refused = v.refused;
    tasks = v.tasks;
    once = λ n. omega (arith, v.once n, ap (waits n) e);
    completed = v.completed;
    rejected = v.rejected;
    workers = v.workers;
    active_workers = v.active_workers;
  }

  pub finish-IsPooling :
      (n duration : ℕ) (b : Bool)
      → authenticated_of n st.busy ≡ some b
      → IsPooling (finish n duration st)
  unfolding finish update_task_time
  finish-IsPooling n duration b there =
      let fewer = length-leave n b st.busy there in
      record {
        valid = v.valid;
        bounded = record { least = v.bounded.least; most = v.bounded.most; room = v.bounded.room };
        queued = v.queued;
        active =
            ap decrement (v.active ∙ ap (λ k. k % 2 ^ 64) (omega (arith, fewer)))
            ∙ decrement_mod
                (pending st.submitting + waiting st.task_chan + length (leave n st.busy));
        total = v.total;
        refused = v.refused;
        tasks = v.tasks;
        once = λ m. omega (arith, v.once m, handled-leave m n b st.busy there);
        completed = omega (arith, v.completed);
        rejected = v.rejected;
        workers = omega (arith, v.workers, fewer);
        active_workers = omega (arith, v.active_workers, fewer);
      }

  pub asked-IsPooling : (n : ℕ) (a : Answer z) → IsValid a.reply.cache → IsPooling (asked n a st)
  unfolding asked
  asked-IsPooling n a va =
      let same = length-authenticate n a.authenticated st.busy in
      record {
        valid = va;
        bounded = v.bounded;
        queued = v.queued;
        active =
            v.active
            ∙ ap (λ k. (pending st.submitting + waiting st.task_chan + k) % 2 ^ 64) (sym same);
        total = v.total;
        refused = v.refused;
        tasks = v.tasks;
        once = λ m. omega (arith, v.once m, handled-authenticate m n a.authenticated st.busy);
        completed = v.completed;
        rejected = v.rejected;
        workers = omega (arith, v.workers, same);
        active_workers = omega (arith, v.active_workers, same);
      }

pub take_task-IsPooling :
    {z : Compression} (st : PooledServer z) (chan : List (Option ℕ))
    → IsPooling st
    → 0 < st.idle
    → st.task_chan ≡ chan
    → IsPooling (take_task chan st)
unfolding take_task
take_task-IsPooling st [] v some_idle e = v
take_task-IsPooling st (none ∷ rest) v some_idle e =
    exit-IsPooling (received rest st) (received-IsPooling st v rest e) some_idle
take_task-IsPooling st (some n ∷ rest) v some_idle e = record {
  valid = v.valid;
  bounded = record {
    least = v.bounded.least;
    most = v.bounded.most;
    room = omega (arith, v.bounded.room);
  };
  queued = omega (arith, v.queued, ap length e);
  active = v.active ∙ ap (λ k. k % 2 ^ 64) (omega (arith, ap waiting e));
  total = v.total;
  refused = v.refused;
  tasks = v.tasks;
  once = λ m. omega (arith, v.once m, ap (waits m) e);
  completed = v.completed;
  rejected = v.rejected;
  workers = omega (arith, v.workers);
  active_workers = omega (arith, v.active_workers);
}

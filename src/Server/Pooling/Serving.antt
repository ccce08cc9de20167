-- ===== src/Server/Pooling/Serving.antt =====
-- tcpserver/pooled_goroutine_server.go: the server and its pool while connections come and go.
use ant_cache.Base.{
  ℕ, suc, ◌+◌, ◌≤◌, ◌<◌, ◌≡◌, refl, ap, ◌∙◌, inl, inr, Bool, true, false, not, ◌&&◌, Option, none,
  some, List, [], ◌∷◌, arith, if◌then◌else◌, text_eq, Bool-cases, Option-cases, ltb, ◌||◌, is_some,
}
use ant_cache.Item.{Compression}
use ant_cache.Cache.{Cache}
use ant_cache.Cache.Valid.{IsValid}
use ant_cache.Pool
use ant_cache.Pool.{new_goroutine_pool}
use ant_cache.Pool.Scaling.{new_goroutine_pool-IsBounded}
use ant_cache.Server.{Server, Answer}
use ant_cache.Server.Safety.{process_total}
use ant_cache.Server.Pooled.{process_command_direct}
use ant_cache.Server.Session.{Received}
use ant_cache.Server.Accepting.{increment, authenticated_of}
use ant_cache.Server.Accepting.Counting.{stopped_once, authenticated_of-authenticate}
use ant_cache.Server.Pooling.{
  PooledServer, Event, accepts, accept_fails, enqueues, times_out, begins, takes, quits, stops,
  checks, receives, ends, new_pooled_goroutine_server, start, accept, submit, reject, check, begin,
  exit, take_task, finish, asked, receive, stop, happen, happen_all,
}
use ant_cache.Server.Pooling.Accounts.{
  IsPooling, accept-IsPooling, submit-IsPooling, reject-IsPooling, check-IsPooling, begin-IsPooling,
  exit-IsPooling, finish-IsPooling, asked-IsPooling, take_task-IsPooling,
}

-- How often Stop is called.
abbrev pub stop_count : List Event → ℕ
stop_count [] = 0
stop_count (stops ∷ es) = suc (stop_count es)
stop_count (_ ∷ es) = stop_count es

module _ {z : Compression} (s : Server z) where
  -- An event happens without a panic, keeps the accounts, and counts as a Stop if it is one.
  abbrev Pools : ℕ → Option (PooledServer z) → Type 0
  Pools count o =
      (st : PooledServer z) × (o ≡ some st) × IsPooling st × (stopped_once st.stopped ≡ count)

  Pools-if :
      (count : ℕ) (b : Bool) (x y : Option (PooledServer z))
      → (b ≡ true → Pools count x)
      → (b ≡ false → Pools count y)
      → Pools count (if b then x else y)
  Pools-if count true x y h k = h refl
  Pools-if count false x y h k = k refl

  processed :
      (c : Cache z) (l : Received) (b : Bool)
      → IsValid c
      → (a : Answer z) × (process_command_direct s c l.now b l.text ≡ some a)
        × IsValid a.reply.cache
  unfolding process_command_direct
  processed c l b v = process_total s c l.now b l.text v

  answered-Pools :
      (n duration : ℕ) (l : Received) (st : PooledServer z) (b : Bool)
      → authenticated_of n st.busy ≡ some b
      → IsPooling st
      → Pools (stopped_once st.stopped) (receive s n l duration st (some b))
  unfolding receive asked finish
  answered-Pools n duration l st b there v = elim (Bool-cases (text_eq l.text [])) [
    | inl empty ↦ rw empty (st, refl, v, refl)
    | inr some_text ↦
        let (a, e, va) = processed st.cache l b v.valid in
        let st1 = asked n a st in
        let v1 : IsPooling st1 = asked-IsPooling st v n a va in
        elim (Bool-cases l.writable) [
          | inl can ↦ (
            record st1 { total_responses = increment st1.total_responses },
            rw (receive, some_text, e, can) refl,
            record {
              valid = v1.valid;
              bounded = v1.bounded;
              queued = v1.queued;
              active = v1.active;
              total = v1.total;
              refused = v1.refused;
              tasks = v1.tasks;
              once = v1.once;
              completed = v1.completed;
              rejected = v1.rejected;
              workers = v1.workers;
              active_workers = v1.active_workers;
            },
            refl,
          )
          | inr cannot ↦ (
            finish n duration st1,
            rw (receive, some_text, e, cannot) refl,
            finish-IsPooling st1 v1 n duration a.authenticated
                (authenticated_of-authenticate n b a.authenticated st.busy there),
            refl,
          )
        ]
  ]

  same_accounts :
      (st : PooledServer z) (running accepting stopped : Bool)
      → IsPooling st
      → IsPooling (record st { running = running; accepting = accepting; stopped = stopped })
  same_accounts st running accepting stopped v = record {
    valid = v.valid;
    bounded = v.bounded;
    queued = v.queued;
    active = v.active;
    total = v.total;
    refused = v.refused;
    tasks = v.tasks;
    once = v.once;
    completed = v.completed;
    rejected = v.rejected;
    workers = v.workers;
    active_workers = v.active_workers;
  }

  taken_stopped :
      (st : PooledServer z) (chan : List (Option ℕ)) → (take_task chan st).stopped ≡ st.stopped
  unfolding take_task exit
  taken_stopped st [] = refl
  taken_stopped st (none ∷ rest) = refl
  taken_stopped st (some n ∷ rest) = refl

  happen-Pools :
      (e : Event) (st : PooledServer z)
      → stop_count (e ∷ []) + stopped_once st.stopped ≤ 1
      → IsPooling st
      → Pools (stop_count (e ∷ []) + stopped_once st.stopped) (happen s e st)
  unfolding happen accept submit reject check begin exit finish stop
  happen-Pools accepts st once v = elim (Option-cases st.submitting) [
    | inl free ↦
        Pools-if _ (st.accepting && not st.checking && not (is_some st.submitting)) _ _
          (λ on. (accept st, refl, accept-IsPooling st v free, omega arith))
          (λ off. (st, refl, v, omega arith))
    | inr (n, held) ↦
        Pools-if _ (st.accepting && not st.checking && not (is_some st.submitting)) _ _
          (λ on. absurd (ground (arith, on, held))) (λ off. (st, refl, v, omega arith))
  ]
  happen-Pools accept_fails st once v =
      Pools-if _ (st.checking || is_some st.submitting) _ _ (λ busy. (st, refl, v, omega arith))
        (λ ready. (
          _,
          refl,
          same_accounts st st.running (st.accepting && st.running) st.stopped v,
          omega arith,
        ))
  happen-Pools enqueues st once v = elim (Option-cases st.submitting) [
    | inl free ↦ rw (happen, free) (st, refl, v, omega arith)
    | inr (n, held) ↦
        rw (happen, held)
          (Pools-if _ (ltb st.pool.queued st.pool.capacity) _ _
            (λ room.
              (submit n st, refl, submit-IsPooling st v n held (ground (arith, room)), omega arith))
            (λ full. (st, refl, v, omega arith)))
  ]
  happen-Pools times_out st once v = elim (Option-cases st.submitting) [
    | inl free ↦ rw (happen, free) (st, refl, v, omega arith)
    | inr (n, held) ↦
        rw (happen, held)
          (Pools-if _ (ltb st.pool.queued st.pool.capacity) _ _ (λ room. (st, refl, v, omega arith))
            (λ full. (reject n st, refl, reject-IsPooling st v n held, omega arith)))
  ]
  happen-Pools (checks now) st once v =
      Pools-if _ st.checking _ _ (λ on. (check now st, refl, check-IsPooling st v now, omega arith))
        (λ off. (st, refl, v, omega arith))
  happen-Pools begins st once v =
      Pools-if _ (ltb 0 st.spawned) _ _
        (λ on. (begin st, refl, begin-IsPooling st v (ground (arith, on)), omega arith))
        (λ off. (st, refl, v, omega arith))
  happen-Pools takes st once v =
      Pools-if _ (ltb 0 st.idle) _ _
        (λ on. (
          take_task st.task_chan st,
          refl,
          take_task-IsPooling st st.task_chan v (ground (arith, on)) refl,
          ap stopped_once (taken_stopped st st.task_chan) ∙ omega arith,
        ))
        (λ off. (st, refl, v, omega arith))
  happen-Pools quits st once v =
      Pools-if _ (st.stopped && ltb 0 st.idle) _ _
        (λ on. (exit st, refl, exit-IsPooling st v (ground (arith, on)), omega arith))
        (λ off. (st, refl, v, omega arith))
  happen-Pools (receives n l duration) st once v =
      elim (Option-cases (authenticated_of n st.busy)) [
        | inl closed ↦ rw (happen, closed) (unfold receive in (st, refl, v, omega arith))
        | inr (b, there) ↦
            let (st', e, v', kept) = answered-Pools n duration l st b there v in
            (st', rw (happen, there) e, v', kept ∙ omega arith)
      ]
  happen-Pools (ends n duration) st once v = elim (Option-cases (authenticated_of n st.busy)) [
    | inl closed ↦ (st, rw (happen, closed) refl, v, omega arith)
    | inr (b, there) ↦ (
      finish n duration st,
      rw (happen, there) refl,
      finish-IsPooling st v n duration b there,
      omega arith,
    )
  ]
  happen-Pools stops st once v =
      Pools-if _ st.stopped _ _ (λ again. absurd (omega (arith, ap stopped_once again)))
        (λ first. (
          _,
          refl,
          same_accounts st false st.accepting true v,
          omega (arith, ap stopped_once first),
        ))

  stop_count-cons :
      (e : Event) (es : List Event) → stop_count (e ∷ es) ≡ stop_count (e ∷ []) + stop_count es
  stop_count-cons stops es = omega arith
  stop_count-cons accepts es = omega arith
  stop_count-cons accept_fails es = omega arith
  stop_count-cons enqueues es = omega arith
  stop_count-cons times_out es = omega arith
  stop_count-cons begins es = omega arith
  stop_count-cons takes es = omega arith
  stop_count-cons quits es = omega arith
  stop_count-cons (checks now) es = omega arith
  stop_count-cons (receives n l duration) es = omega arith
  stop_count-cons (ends n duration) es = omega arith

  happen_all-Pools :
      (es : List Event) (st : PooledServer z)
      → stop_count es + stopped_once st.stopped ≤ 1
      → IsPooling st
      → (st' : PooledServer z) × (happen_all s es st ≡ some st') × IsPooling st'
  unfolding happen_all
  happen_all-Pools [] st once v = (st, refl, v)
  happen_all-Pools (e ∷ es) st once v =
      let split = stop_count-cons e es in
      let (st1, e1, v1, counted) = happen-Pools e st (omega (arith, split, once)) v in
      let (st2, e2, v2) = happen_all-Pools es st1 (omega (arith, split, counted)) v1 in
      (st2, rw (happen_all, e1) e2, v2)

  started-IsPooling :
      (c : Cache z) (pool_size now : ℕ)
      → 0 < pool_size
      → IsValid c
      → IsPooling (start (new_pooled_goroutine_server c pool_size now))
  unfolding start new_pooled_goroutine_server new_goroutine_pool Pool.start
  started-IsPooling c pool_size now some_workers v =
      let b = new_goroutine_pool-IsBounded pool_size now some_workers in
      record {
        valid = v;
        bounded = record { least = b.least; most = b.most; room = b.room };
        queued = refl;
        active = refl;
        total = refl;
        refused = refl;
        tasks = refl;
        once = λ n. ground arith;
        completed = refl;
        rejected = refl;
        workers = omega arith;
        active_workers = refl;
      }

  -- A pooled server with at least one worker is started on a well-formed cache. Whatever the connections,
  -- the accept loop, the workers and at most one Stop do, and in whatever order: no command panics and
  -- the cache is well formed; each accepted connection stands by its number in exactly one place, at the
  -- accept loop, in the channel, with a worker, among the ended ones or among the rejected ones; each
  -- worker is accounted for, the counters say so, and the pool is within its bounds.
  pub happen_all-IsPooling :
      (es : List Event) (c : Cache z) (pool_size now : ℕ)
      → 0 < pool_size
      → IsValid c
      → stop_count es ≤ 1
      → (st : PooledServer z) × (happen_all s es
            (start (new_pooled_goroutine_server c pool_size now))
          ≡ some st)
        × IsPooling st
  happen_all-IsPooling es c pool_size now some_workers v once =
      happen_all-Pools es (start (new_pooled_goroutine_server c pool_size now))
        (unfold start in unfold new_pooled_goroutine_server in omega arith)
        (started-IsPooling c pool_size now some_workers v)

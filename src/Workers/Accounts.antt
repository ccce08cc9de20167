-- ===== src/Workers/Accounts.antt =====
-- tcpserver/worker_pool.go: where each task of the pool is.
use ant_cache.Base.{
  replicate, ◌%◌, ◌^◌, ◌<◌, ℕ, zero, suc, ◌+◌, ◌*◌, ◌≤◌, ◌≡◌, refl, ap, inl, inr, Bool, true, false,
  ◌&&◌, Option, none, some, List, [], ◌∷◌, arith, if◌then◌else◌, Text, length, ◌==◌, Option-cases,
  leb, ltb, length-append,
}
use mathlib.Core.Path.{subst}
use mathlib.Core.Option.{some-injective}
use ant_cache.Workers.{
  Task, Finished, Outcome, Registered, waits, has_quit, WorkerPool, new_worker_pool, pick, submit,
  enqueue, time_out, dispatch_from, send_task, hand_over, finish, quit_at, quit, Event, submits,
  enqueues, times_out, dispatches, hands_over, finishes, stops, quits_at, happen, happen_all,
}
use ant_cache.Workers.Places.{
  one, count, occurs, count-append, count_finished-append, count-pick, length-pick, length-quit_at,
}

-- Each number up to the last one that was given out stands once in the pool, and no other stands
-- there; the queues are within their bounds.
pub record IsAccounted (p : WorkerPool) : Type 0 where
  pub once : (n : ℕ) → occurs n p ≡ one (ltb 0 n && leb n p.task_id)
  pub queue : length p.task_queue ≤ p.max_workers * 10
  pub workers : length p.worker_queue + length p.busy ≤ p.max_workers

-- The state that a step gives, if it gives one, is accounted for, and its last number is `k`.
abbrev Keeps : ℕ → Option WorkerPool → Type 0
Keeps k r = (q : WorkerPool) → r ≡ some q → IsAccounted q × (q.task_id ≡ k)

Keeps-some : (k : ℕ) (p : WorkerPool) → p.task_id ≡ k → IsAccounted p → Keeps k (some p)
Keeps-some k p last v q e =
    subst (λ x. IsAccounted x × (x.task_id ≡ k)) (some-injective p q e) (v, last)

Keeps-none : (k : ℕ) → Keeps k none
Keeps-none k q e = cc e

Keeps-if :
    (k : ℕ) (b : Bool) (x y : Option WorkerPool)
    → (b ≡ true → Keeps k x)
    → (b ≡ false → Keeps k y)
    → Keeps k (if b then x else y)
Keeps-if k true x y hx hy = hx refl
Keeps-if k false x y hx hy = hy refl

dispatch_from-Keeps :
    (p : WorkerPool) (tasks : List Task)
    → p.task_queue ≡ tasks
    → IsAccounted p
    → Keeps p.task_id (dispatch_from p tasks)
dispatch_from-Keeps p [] e v = Keeps-none p.task_id
dispatch_from-Keeps p (task ∷ tasks) e v =
    Keeps-if p.task_id p.dispatching _ _
      (λ on. Keeps-some p.task_id _ refl (record {
        once = λ n. omega (arith, v.once n, ap (count n) e, count-append n p.held (task ∷ []));
        queue = omega (arith, ap length e, v.queue);
        workers = v.workers;
      }))
      (λ off. Keeps-none p.task_id)

hand_over-Keeps :
    (p : WorkerPool) (task : Task) (others : List Task) (queue : List Registered)
    → ((n : ℕ) → count n p.held ≡ one (task.id == n) + count n others)
    → p.worker_queue ≡ queue
    → IsAccounted p
    → Keeps p.task_id (send_task p task others queue)
hand_over-Keeps p task others [] taken e v = Keeps-none p.task_id
hand_over-Keeps p task others (waits ∷ queue) taken e v = Keeps-some p.task_id _ refl (record {
  once = λ n. omega (arith, v.once n, taken n, count-append n p.busy (task ∷ []));
  queue = v.queue;
  workers = omega (arith, ap length e, v.workers, length-append p.busy (task ∷ []));
})
hand_over-Keeps p task others (has_quit ∷ queue) taken e v = Keeps-some p.task_id _ refl (record {
  once = λ n. omega (arith, v.once n, taken n, count-append n p.stuck (task ∷ []));
  queue = v.queue;
  workers = omega (arith, ap length e, v.workers);
})

finish-Keeps :
    (p : WorkerPool) (outcome : Outcome) (i : ℕ)
    → IsAccounted p
    → Keeps p.task_id (finish p outcome (pick i p.busy))
finish-Keeps p outcome i v = elim (Option-cases (pick i p.busy)) [
  | inl absent ↦ rw absent (Keeps-none p.task_id)
  | inr ((task, others), got) ↦
      let done : Finished = record { task = task; outcome = outcome } in
      rw got (
        Keeps-some p.task_id _ refl (record {
          once = λ n. omega (
            arith,
            v.once n,
            count-pick n i p.busy task others got,
            count_finished-append n p.finished (done ∷ []),
          );
          queue = v.queue;
          workers = omega (
            arith,
            v.workers,
            length-pick i p.busy task others got,
            length-append p.worker_queue (waits ∷ []),
          );
        }))
]

quit-Keeps :
    (p : WorkerPool) (i : ℕ) → IsAccounted p → Keeps p.task_id (quit p (quit_at i p.worker_queue))
quit-Keeps p i v = elim (Option-cases (quit_at i p.worker_queue)) [
  | inl absent ↦ rw absent (Keeps-none p.task_id)
  | inr (queue, got) ↦ rw got (
      Keeps-if p.task_id (p.quits == 0) none _ (λ out. Keeps-none p.task_id)
        (λ some_quits. Keeps-some p.task_id _ refl (record {
          once = v.once;
          queue = v.queue;
          workers = omega (arith, v.workers, length-quit_at i p.worker_queue queue got);
        })))
]

submit-Keeps :
    (payload : Text) (conn_id : ℕ) (p : WorkerPool)
    → p.task_id + 1 < 2 ^ 64
    → IsAccounted p
    → Keeps (p.task_id + 1) (some (submit payload conn_id p))
unfolding submit
submit-Keeps payload conn_id p fits v =
    let id : ℕ = (p.task_id + 1) % 2 ^ 64 in
    let same : id ≡ p.task_id + 1 = omega (arith, fits) in
    let task : Task = record { id = id; payload = payload; conn_id = conn_id } in
    Keeps-some (p.task_id + 1) _ same (record {
      once = λ n. ground (arith, v.once n, same, count-append n p.offered (task ∷ []));
      queue = v.queue;
      workers = v.workers;
    })

enqueues-Keeps :
    (p : WorkerPool) (i : ℕ) → IsAccounted p → Keeps p.task_id (enqueue p (pick i p.offered))
enqueues-Keeps p i v = elim (Option-cases (pick i p.offered)) [
  | inl absent ↦ rw absent (Keeps-none p.task_id)
  | inr ((task, others), got) ↦ rw got (
      Keeps-if p.task_id (ltb (length p.task_queue) (p.max_workers * 10)) _ _
        (λ room. Keeps-some p.task_id _ refl (record {
          once = λ n. omega (
            arith,
            v.once n,
            count-pick n i p.offered task others got,
            count-append n p.task_queue (task ∷ []),
          );
          queue = ground (arith, room, length-append p.task_queue (task ∷ []));
          workers = v.workers;
        }))
        (λ full. Keeps-none p.task_id))
]

times_out-Keeps :
    (p : WorkerPool) (i : ℕ) → IsAccounted p → Keeps p.task_id (time_out p (pick i p.offered))
times_out-Keeps p i v = elim (Option-cases (pick i p.offered)) [
  | inl absent ↦ rw absent (Keeps-none p.task_id)
  | inr ((task, others), got) ↦ rw got (
      Keeps-if p.task_id (ltb (length p.task_queue) (p.max_workers * 10)) _ _
        (λ room. Keeps-none p.task_id)
        (λ full. Keeps-some p.task_id _ refl (record {
          once = λ n. omega (
            arith,
            v.once n,
            count-pick n i p.offered task others got,
            count-append n p.rejected (task ∷ []),
          );
          queue = v.queue;
          workers = v.workers;
        })))
]

hands_over-Keeps :
    (p : WorkerPool) (i : ℕ) → IsAccounted p → Keeps p.task_id (hand_over p (pick i p.held))
hands_over-Keeps p i v = elim (Option-cases (pick i p.held)) [
  | inl absent ↦ rw absent (Keeps-none p.task_id)
  | inr ((task, others), got) ↦ rw got (
      hand_over-Keeps p task others p.worker_queue (λ n. count-pick n i p.held task others got) refl
        v)
]

-- The last number after an event, and how often SubmitTask is called.
abbrev next_id : Event → ℕ → ℕ
next_id (submits payload conn_id) k = k + 1
next_id _ k = k

abbrev pub submit_count : List Event → ℕ
submit_count [] = 0
submit_count (submits _ _ ∷ es) = suc (submit_count es)
submit_count (_ ∷ es) = submit_count es

happen-Keeps :
    (e : Event) (p : WorkerPool)
    → next_id e p.task_id < 2 ^ 64
    → IsAccounted p
    → Keeps (next_id e p.task_id) (happen e p)
unfolding happen
happen-Keeps (submits payload conn_id) p fits v = submit-Keeps payload conn_id p fits v
happen-Keeps (enqueues i) p fits v = enqueues-Keeps p i v
happen-Keeps (times_out i) p fits v = times_out-Keeps p i v
happen-Keeps dispatches p fits v = dispatch_from-Keeps p p.task_queue refl v
happen-Keeps (hands_over i) p fits v = hands_over-Keeps p i v
happen-Keeps (finishes i outcome) p fits v = finish-Keeps p outcome i v
happen-Keeps stops p fits v =
    Keeps-if p.task_id p.dispatching _ _
      (λ on.
        Keeps-some p.task_id _ refl
          (record { once = v.once; queue = v.queue; workers = v.workers }))
      (λ off. Keeps-none p.task_id)
happen-Keeps (quits_at i) p fits v = quit-Keeps p i v

next_id-count :
    (e : Event) (es : List Event) (k : ℕ)
    → submit_count (e ∷ es) + k ≡ submit_count es + next_id e k
next_id-count (submits payload conn_id) es k = omega arith
next_id-count (enqueues i) es k = refl
next_id-count (times_out i) es k = refl
next_id-count dispatches es k = refl
next_id-count (hands_over i) es k = refl
next_id-count (finishes i outcome) es k = refl
next_id-count stops es k = refl
next_id-count (quits_at i) es k = refl

happen_all-Keeps :
    (es : List Event) (p q : WorkerPool)
    → submit_count es + p.task_id < 2 ^ 64
    → IsAccounted p
    → happen_all es p ≡ some q
    → IsAccounted q
unfolding happen_all
happen_all-Keeps [] p q fits v e = subst IsAccounted (some-injective p q e) v
happen_all-Keeps (e ∷ es) p q fits v r = elim (Option-cases (happen e p)) [
  | inl impossible ↦ cc (rw (happen_all, impossible) at r)
  | inr (p1, stepped) ↦
      let counted = next_id-count e es p.task_id in
      let (v1, last) = happen-Keeps e p (omega (arith, fits, counted)) v p1 stepped in
      happen_all-Keeps es p1 q (omega (arith, fits, counted, last)) v1
        (rw (happen_all, stepped) at r)
]

length-replicate : (n : ℕ) → length (replicate n waits) ≡ n
length-replicate zero = refl
length-replicate (suc n) = ap suc (length-replicate n)

new_worker_pool-IsAccounted : (max_workers : ℕ) → IsAccounted (new_worker_pool max_workers)
unfolding new_worker_pool
new_worker_pool-IsAccounted m = record {
  once = λ n. ground arith;
  queue = omega arith;
  workers = omega (arith, length-replicate m);
}

-- Whatever the order of the steps, no task of the worker pool is lost or doubled: after any steps from
-- a new pool, in which SubmitTask is called less than 2 ^ 64 times, each number that it gave out stands
-- once, in a call that waits, in the queue, with a goroutine of the dispatcher, with a worker, at a
-- worker that has quit, or among the finished or the rejected tasks, and no other number stands there.
-- The queue and the number of workers are within their bounds.
pub happen_all-IsAccounted :
    (max_workers : ℕ) (es : List Event) (p : WorkerPool)
    → submit_count es < 2 ^ 64
    → happen_all es (new_worker_pool max_workers) ≡ some p
    → IsAccounted p
unfolding new_worker_pool
happen_all-IsAccounted max_workers es p fits e =
    happen_all-Keeps es (new_worker_pool max_workers) p (omega (arith, fits))
      (new_worker_pool-IsAccounted max_workers) e

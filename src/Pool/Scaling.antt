-- ===== src/Pool/Scaling.antt =====
-- tcpserver/pooled_goroutine_server.go: the bounds of the pool, and the methods that scale it.
use ant_cache.Base.{
  ℕ, ◌+◌, ◌-◌, ◌/◌, ◌≤◌, ◌<◌, ◌≡◌, refl, arith, zero, suc, ltb, Bool, true, false, Bool-cases,
  if◌then◌else◌, inl, inr,
}
use ant_cache.Pool.{
  GoroutinePool, min, new_goroutine_pool, scale_up, send_stop, send_stops, scale_down,
  check_and_scale, submit_task,
}

pub record IsBounded (gp : GoroutinePool) : Type 0 where
  pub least : gp.min_workers ≤ gp.worker_count
  pub most : gp.worker_count ≤ gp.max_workers
  pub room : gp.queued ≤ gp.capacity

pub new_goroutine_pool-IsBounded : (n now : ℕ) → 0 < n → IsBounded (new_goroutine_pool n now)
unfolding new_goroutine_pool
new_goroutine_pool-IsBounded n now h = ground arith

pub scale_up-IsBounded : (gp : GoroutinePool) → IsBounded gp → IsBounded (scale_up gp)
unfolding scale_up
scale_up-IsBounded gp h = ground arith

-- Sending stop signals keeps all but the channel.
abbrev Sent : GoroutinePool → GoroutinePool → Type 0
Sent gp gp' =
    (gp'.worker_count ≡ gp.worker_count)
    × (gp'.min_workers ≡ gp.min_workers)
    × (gp'.max_workers ≡ gp.max_workers)
    × (gp'.queued ≤ gp'.capacity)

send_stops-Sent : (n : ℕ) (gp : GoroutinePool) → gp.queued ≤ gp.capacity → Sent gp (send_stops n gp)
unfolding send_stops send_stop
send_stops-Sent zero gp h = (refl, refl, refl, h)
send_stops-Sent (suc n) gp h = ground (arith, send_stops-Sent n (send_stop gp))

pub scale_down-IsBounded : (gp : GoroutinePool) → IsBounded gp → IsBounded (scale_down gp)
unfolding scale_down
scale_down-IsBounded gp h =
    let remove = min (gp.worker_count / 8) (gp.worker_count - gp.min_workers) in
    let sent = send_stops-Sent remove gp h.room in ground arith

if-IsBounded :
    (b : Bool) (gp gp' : GoroutinePool)
    → IsBounded gp
    → IsBounded gp'
    → IsBounded (if b then gp else gp')
if-IsBounded true gp gp' h h' = h
if-IsBounded false gp gp' h h' = h'

-- A check for scaling keeps the number of workers between the least and the greatest and the channel
-- within its capacity, whichever of the two conditions holds.
pub check_and_scale-IsBounded :
    (gp : GoroutinePool) (now : ℕ) → IsBounded gp → IsBounded (check_and_scale gp now)
unfolding check_and_scale
check_and_scale-IsBounded gp now h =
    let gp1 = if-IsBounded _ (scale_up gp) gp (scale_up-IsBounded gp h) h in
    let gp2 = if-IsBounded _ _ _ (scale_down-IsBounded _ gp1) gp1 in
    if-IsBounded _ gp _ h (record { least = gp2.least; most = gp2.most; room = gp2.room })

-- Submitting a task keeps the number of workers between the least and the greatest and the channel
-- within its capacity, whether the task is taken or rejected.
pub submit_task-IsBounded :
    (gp : GoroutinePool) (taken now : ℕ) → IsBounded gp → IsBounded (submit_task gp taken now).1
unfolding submit_task
submit_task-IsBounded gp taken now h =
    let fits : ltb gp.queued gp.capacity ≡ true → gp.queued + 1 - taken ≤ gp.capacity =
      λ e. ground (arith, e) in
    elim (Bool-cases (ltb gp.queued gp.capacity)) [
      | inl e ↦ ground (
        arith,
        e,
        check_and_scale-IsBounded
            (record gp { total_tasks = gp.total_tasks + 1; queued = gp.queued + 1 - taken }) now
            (record { least = h.least; most = h.most; room = fits e }),
      )
      | inr e ↦ ground (arith, e)
    ]

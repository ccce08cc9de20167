-- ===== src/Pool/Checking.antt =====
-- tcpserver/pooled_goroutine_server.go: what checkAndScale does to the channel and the counters.
use ant_cache.Base.{
  ◌/◌, ℕ, zero, suc, ◌+◌, ◌-◌, ◌*◌, ◌≤◌, ◌≡◌, refl, ◌∙◌, Bool, true, false, ◌&&◌, ◌||◌, arith,
  if◌then◌else◌, ◌==◌, leb, ltb,
}
use ant_cache.Pool.{
  GoroutinePool, min, scale_up, send_stop, send_stops, scale_down, check_and_scale,
}

-- Each stop signal that was sent is in the channel, goroutines are started only, and the counters of
-- the tasks are as they were.
pub record Checked (gp gp' : GoroutinePool) : Type 0 where
  pub signalled : gp'.queued + gp.stop_signals ≡ gp.queued + gp'.stop_signals
  pub more_signals : gp.stop_signals ≤ gp'.stop_signals
  pub more_started : gp.started ≤ gp'.started
  pub total : gp'.total_tasks ≡ gp.total_tasks
  pub completed : gp'.completed_tasks ≡ gp.completed_tasks
  pub rejected : gp'.rejected_tasks ≡ gp.rejected_tasks
  pub active : gp'.active_workers ≡ gp.active_workers

Checked-refl : (gp : GoroutinePool) → Checked gp gp
Checked-refl gp = record {
  signalled = refl;
  more_signals = omega arith;
  more_started = omega arith;
  total = refl;
  completed = refl;
  rejected = refl;
  active = refl;
}

Checked-trans : {a b c : GoroutinePool} → Checked a b → Checked b c → Checked a c
Checked-trans p q = record {
  signalled = omega (arith, p.signalled, q.signalled);
  more_signals = omega (arith, p.more_signals, q.more_signals);
  more_started = omega (arith, p.more_started, q.more_started);
  total = q.total ∙ p.total;
  completed = q.completed ∙ p.completed;
  rejected = q.rejected ∙ p.rejected;
  active = q.active ∙ p.active;
}

if-Checked :
    (b : Bool) (a x y : GoroutinePool) → Checked a x → Checked a y → Checked a (if b then x else y)
if-Checked true a x y p q = p
if-Checked false a x y p q = q

scale_up-Checked : (gp : GoroutinePool) → Checked gp (scale_up gp)
unfolding scale_up
scale_up-Checked gp =
    let n = min (gp.worker_count / 4) (gp.max_workers - gp.worker_count) in
    if-Checked (n == 0) gp gp
      (record gp { started = gp.started + n; worker_count = gp.worker_count + n }) (Checked-refl gp)
      (record {
        signalled = refl;
        more_signals = omega arith;
        more_started = omega arith;
        total = refl;
        completed = refl;
        rejected = refl;
        active = refl;
      })

send_stop-Checked : (gp : GoroutinePool) → Checked gp (send_stop gp)
unfolding send_stop
send_stop-Checked gp =
    if-Checked (ltb gp.queued gp.capacity) gp
      (record gp { queued = gp.queued + 1; stop_signals = gp.stop_signals + 1 }) gp
      (record {
        signalled = omega arith;
        more_signals = omega arith;
        more_started = omega arith;
        total = refl;
        completed = refl;
        rejected = refl;
        active = refl;
      })
      (Checked-refl gp)

send_stops-Checked : (n : ℕ) (gp : GoroutinePool) → Checked gp (send_stops n gp)
unfolding send_stops
send_stops-Checked zero gp = Checked-refl gp
send_stops-Checked (suc n) gp =
    Checked-trans (send_stop-Checked gp) (send_stops-Checked n (send_stop gp))

scale_down-Checked : (gp : GoroutinePool) → Checked gp (scale_down gp)
unfolding scale_down
scale_down-Checked gp =
    let n = min (gp.worker_count / 8) (gp.worker_count - gp.min_workers) in
    let gp' = send_stops n gp in
    let sent = send_stops-Checked n gp in
    if-Checked (n == 0) gp gp (record gp' { worker_count = gp'.worker_count - n }) (Checked-refl gp)
      (record {
        signalled = sent.signalled;
        more_signals = sent.more_signals;
        more_started = sent.more_started;
        total = sent.total;
        completed = sent.completed;
        rejected = sent.rejected;
        active = sent.active;
      })

pub check_and_scale-Checked : (gp : GoroutinePool) (now : ℕ) → Checked gp (check_and_scale gp now)
unfolding check_and_scale
check_and_scale-Checked gp now =
    let more =
      (ltb (gp.worker_count / 2) gp.queued || leb (gp.worker_count * 9 / 10) gp.active_workers)
      && ltb gp.worker_count gp.max_workers in
    let gp1 = if more then scale_up gp else gp in
    let up = if-Checked more gp (scale_up gp) gp (scale_up-Checked gp) (Checked-refl gp) in
    let fewer =
      gp.queued == 0 && ltb gp.avg_task_time 1000000 && ltb gp1.min_workers gp1.worker_count in
    let gp2 = if fewer then scale_down gp1 else gp1 in
    let down : Checked gp gp2 =
      if-Checked fewer gp (scale_down gp1) gp1 (Checked-trans up (scale_down-Checked gp1)) up in
    if-Checked (ltb (now - gp.last_scale_time) gp.scale_interval) gp gp
      (record gp2 { last_scale_time = now }) (Checked-refl gp)
      (record {
        signalled = down.signalled;
        more_signals = down.more_signals;
        more_started = down.more_started;
        total = down.total;
        completed = down.completed;
        rejected = down.rejected;
        active = down.active;
      })

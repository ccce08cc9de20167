-- ===== src/Pool.antt =====
-- tcpserver/pooled_goroutine_server.go: the sizes and counters of the GoroutinePool. The channel is
-- the number of tasks that wait in it and the number of `nil` tasks, which tell a worker to stop.
pub mod Scaling
pub mod Checking
use ant_cache.Base.{
  Table, codes, ℕ, ◌+◌, ◌-◌, ◌*◌, ◌/◌, ◌%◌, ◌≤◌, ◌<◌, Bool, true, false, ◌&&◌, ◌||◌, ltb, leb, ◌==◌,
  if◌then◌else◌, List, [], ◌∷◌, length, set, replicate, zero, suc,
}

-- Times are numbers of nanoseconds; `started` counts the worker goroutines that were started.
pub record GoroutinePool : Type 0 where
  pub worker_count : ℕ
  pub max_workers : ℕ
  pub min_workers : ℕ
  pub queued : ℕ
  pub capacity : ℕ
  pub stop_signals : ℕ
  pub started : ℕ
  pub active_workers : ℕ
  pub total_tasks : ℕ
  pub completed_tasks : ℕ
  pub rejected_tasks : ℕ
  pub avg_task_time : ℕ
  pub last_scale_time : ℕ
  pub scale_interval : ℕ
  pub task_time_window : List ℕ
  pub window_size : ℕ
  pub window_index : ℕ

abbrev pub max : ℕ → ℕ → ℕ
max a b = if ltb b a then a else b

abbrev pub min : ℕ → ℕ → ℕ
min a b = if ltb a b then a else b

unfoldable pub new_goroutine_pool : ℕ → ℕ → GoroutinePool
new_goroutine_pool worker_count now = record {
  worker_count = worker_count;
  max_workers = worker_count * 2;
  min_workers = max 1 (worker_count / 4);
  queued = 0;
  capacity = worker_count * 2;
  stop_signals = 0;
  started = 0;
  active_workers = 0;
  total_tasks = 0;
  completed_tasks = 0;
  rejected_tasks = 0;
  avg_task_time = 0;
  last_scale_time = now;
  scale_interval = 5000000000;
  task_time_window = replicate 100 0;
  window_size = 100;
  window_index = 0;
}

unfoldable pub start : GoroutinePool → GoroutinePool
start gp = record gp { started = gp.started + gp.worker_count }

-- The sum and the number of the positive samples.
unfoldable pub sum_positive : List ℕ → ℕ × ℕ
sum_positive [] = (0, 0)
sum_positive (t ∷ ts) =
    let (sum, count) = sum_positive ts in if ltb 0 t then (t + sum, count + 1) else (sum, count)

unfoldable pub update_task_time : GoroutinePool → ℕ → GoroutinePool
unfolding sum_positive
update_task_time gp duration =
    let window = set gp.task_time_window gp.window_index duration in
    let (sum, count) = sum_positive window in
    record gp {
      task_time_window = window;
      window_index = (gp.window_index + 1) % gp.window_size;
      avg_task_time = if ltb 0 count then sum / count else gp.avg_task_time;
    }

unfoldable pub scale_up : GoroutinePool → GoroutinePool
scale_up gp =
    let new_workers = min (gp.worker_count / 4) (gp.max_workers - gp.worker_count) in
    if new_workers == 0 then gp else record gp {
      started = gp.started + new_workers;
      worker_count = gp.worker_count + new_workers;
    }

-- One round of the loop that sends `nil`: a full channel takes none, and the loop goes on, since
-- `break` leaves the select only.
unfoldable pub send_stop : GoroutinePool → GoroutinePool
send_stop gp =
    if ltb gp.queued gp.capacity
    then record gp { queued = gp.queued + 1; stop_signals = gp.stop_signals + 1 }
    else gp

unfoldable pub send_stops : ℕ → GoroutinePool → GoroutinePool
send_stops zero gp = gp
send_stops (suc n) gp = send_stops n (send_stop gp)

unfoldable pub scale_down : GoroutinePool → GoroutinePool
unfolding send_stops send_stop
scale_down gp =
    let remove_workers = min (gp.worker_count / 8) (gp.worker_count - gp.min_workers) in
    let gp' = send_stops remove_workers gp in
    if remove_workers == 0
    then gp
    else record gp' { worker_count = gp'.worker_count - remove_workers }

-- The two conditions are tested one after the other, the second on what the first has changed.
unfoldable pub check_and_scale : GoroutinePool → ℕ → GoroutinePool
check_and_scale gp now =
    let active_workers = gp.active_workers in
    let queue_length = gp.queued in
    let avg_task_time = gp.avg_task_time in
    let up =
      (ltb (gp.worker_count / 2) queue_length || leb (gp.worker_count * 9 / 10) active_workers)
      && ltb gp.worker_count gp.max_workers in
    let gp1 = if up then scale_up gp else gp in
    let down =
      queue_length == 0 && ltb avg_task_time 1000000 && ltb gp1.min_workers gp1.worker_count in
    let gp2 = if down then scale_down gp1 else gp1 in
    if ltb (now - gp.last_scale_time) gp.scale_interval
    then gp
    else record gp2 { last_scale_time = now }

-- A full channel for 100 milliseconds rejects the task. The workers take `taken` tasks from the
-- channel between the send and the check.
unfoldable pub submit_task : GoroutinePool → ℕ → ℕ → Bool × GoroutinePool
submit_task gp taken now =
    let counted = record gp { total_tasks = gp.total_tasks + 1 } in
    if ltb gp.queued gp.capacity
    then (true, check_and_scale (record counted { queued = gp.queued + 1 - taken }) now)
    else (false, record counted { rejected_tasks = gp.rejected_tasks + 1 })

unfoldable pub get_stats : GoroutinePool → Table ℕ
get_stats gp =
    (codes "worker_count", gp.worker_count)
    ∷ (codes "pending_tasks", gp.queued)
    ∷ (codes "available_slots", gp.capacity - gp.queued)
    ∷ []

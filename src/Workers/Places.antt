-- ===== src/Workers/Places.antt =====
-- tcpserver/worker_pool.go: how often a task stands in each place of the pool.
use ant_cache.Base.{
  ℕ, zero, suc, ◌+◌, ◌≡◌, sym, ap, inl, inr, Bool, true, false, some, List, [], ◌∷◌, ◌++◌, arith,
  length, ◌==◌, Option-cases,
}
use mathlib.Core.Option.{some-injective}
use ant_cache.Workers.{Task, Finished, Registered, waits, has_quit, WorkerPool, pick, quit_at}

abbrev pub one : Bool → ℕ
one true = 1
one false = 0

-- How often a task of the number stands in a list.
abbrev pub count : ℕ → List Task → ℕ
count n [] = 0
count n (t ∷ ts) = one (t.id == n) + count n ts

abbrev pub count_finished : ℕ → List Finished → ℕ
count_finished n [] = 0
count_finished n (f ∷ fs) = one (f.task.id == n) + count_finished n fs

-- How often a task of the number stands in the pool.
abbrev pub occurs : ℕ → WorkerPool → ℕ
occurs n p =
    count n p.offered
    + count n p.task_queue
    + count n p.held
    + count n p.busy
    + count n p.stuck
    + count_finished n p.finished
    + count n p.rejected

pub count-append : (n : ℕ) (xs ys : List Task) → count n (xs ++ ys) ≡ count n xs + count n ys
count-append n [] ys = omega arith
count-append n (x ∷ xs) ys = omega (arith, count-append n xs ys)

pub count_finished-append :
    (n : ℕ) (xs ys : List Finished)
    → count_finished n (xs ++ ys) ≡ count_finished n xs + count_finished n ys
count_finished-append n [] ys = omega arith
count_finished-append n (x ∷ xs) ys = omega (arith, count_finished-append n xs ys)

pub count-pick :
    (n i : ℕ) (xs : List Task) (x : Task) (ys : List Task)
    → pick i xs ≡ some (x, ys)
    → count n xs ≡ one (x.id == n) + count n ys
unfolding pick
count-pick n i [] x ys e = cc e
count-pick n zero (z ∷ xs) x ys e =
    ap (λ r. one (r.0.id == n) + count n r.1) (some-injective (z, xs) (x, ys) e)
count-pick n (suc i) (z ∷ xs) x ys e = elim (Option-cases (pick i xs)) [
  | inl absent ↦ cc (rw (pick, absent) at e)
  | inr ((y, zs), got) ↦
      let same =
        ap (λ r. one (r.0.id == n) + count n r.1)
          (some-injective (y, z ∷ zs) (x, ys) (rw (pick, got) at e)) in
      omega (arith, same, count-pick n i xs y zs got)
]

pub length-pick :
    (i : ℕ) (xs : List Task) (x : Task) (ys : List Task)
    → pick i xs ≡ some (x, ys)
    → length xs ≡ suc (length ys)
unfolding pick
length-pick i [] x ys e = cc e
length-pick zero (z ∷ xs) x ys e = ap (λ r. suc (length r.1)) (some-injective (z, xs) (x, ys) e)
length-pick (suc i) (z ∷ xs) x ys e = elim (Option-cases (pick i xs)) [
  | inl absent ↦ cc (rw (pick, absent) at e)
  | inr ((y, zs), got) ↦
      let same =
        ap (λ r. suc (length r.1)) (some-injective (y, z ∷ zs) (x, ys) (rw (pick, got) at e)) in
      omega (arith, same, length-pick i xs y zs got)
]

pub length-quit_at :
    (i : ℕ) (xs ys : List Registered) → quit_at i xs ≡ some ys → length ys ≡ length xs
unfolding quit_at
length-quit_at i [] ys e = cc e
length-quit_at zero (waits ∷ xs) ys e = sym (ap length (some-injective (has_quit ∷ xs) ys e))
length-quit_at zero (has_quit ∷ xs) ys e = cc e
length-quit_at (suc i) (w ∷ xs) ys e = elim (Option-cases (quit_at i xs)) [
  | inl absent ↦ cc (rw (quit_at, absent) at e)
  | inr (zs, got) ↦
      let same = ap length (some-injective (w ∷ zs) ys (rw (quit_at, got) at e)) in
      omega (arith, same, length-quit_at i xs zs got)
]

-- ===== src/Cache/Cleaning.antt =====
-- cache/cache.go: what Cleanup does to the map and the heap.
use ant_cache.Base.{
  ℕ, zero, suc, ◌<◌, ◌≤◌, ◌≡◌, refl, ap, ◌∙◌, sym, inl, inr, ◌⊎◌, Bool-cases, Option-cases, arith,
  ℤ, ◌<ℤ◌, ◌≤ℤ◌, Text, none, some, ltb_ℤ, lookup, erase, lookup-erase, text_eq, text_eq_iff,
  if◌then◌else◌, ◌==◌, true, length, ◌||◌,
}
use ant_cache.Item.{Compression}
use ant_cache.Heap.{at, expiration_at, len, pop, popped}
use ant_cache.Heap.Frame.{SameItems, popped-SameItems}
use ant_cache.Heap.Rearrange.{Holds}
use ant_cache.Heap.Valid.{root_least}
use ant_cache.Heap.Removal.{Without, popped-Without}
use ant_cache.Cache.{Cache, cleanup_loop, cleanup}
use ant_cache.Cache.Valid.{IsValid}
use ant_cache.Cache.Deletion.{drop-IsValid}

module _ {z : Compression} where
  -- An item of the heap whose time has come, with its key.
  abbrev pub IsDue : Cache z → ℤ → Text → Type 0
  IsDue c now key = (p : ℕ) × Holds c.heap p × ((c.mem p).key ≡ key) × ((c.mem p).expiration ≤ℤ now)

  pub record Cleaned (c : Cache z) (now : ℤ) (c' : Cache z) : Type 0 where
    pub valid : IsValid c'
    pub same : SameItems c'.mem c.mem
    pub fewer : (k : Text) (p : ℕ) → lookup k c'.items ≡ some p → lookup k c.items ≡ some p
    pub kept : (k : Text) → (lookup k c'.items ≡ lookup k c.items) ⊎ IsDue c now k
    pub gone : (k : Text) → IsDue c now k → lookup k c'.items ≡ none
    pub later : (p : ℕ) → Holds c'.heap p → now <ℤ (c'.mem p).expiration

  -- One round: the root goes, with its key.
  abbrev step : Cache z → Cache z
  step c =
      let h = (popped c.heap).1 in
      record c { heap = h; items = erase (h.mem (popped c.heap).0).key c.items }

  module _ (c : Cache z) (now : ℤ) (v : IsValid c) (full : 0 < length c.slice)
      (due : expiration_at c.heap 0 ≤ℤ now) where
    root_Without : Without c.heap (at c.heap 0) (popped c.heap).1
    root_Without = (popped-Without c.heap v.heap full).1

    root_key : ((popped c.heap).1.mem (popped c.heap).0).key ≡ (c.mem (at c.heap 0)).key
    root_key =
        ap (λ item. item.key) (popped-SameItems c.heap (popped c.heap).0)
        ∙ ap (λ p. (c.mem p).key) (popped-Without c.heap v.heap full).0

    step-IsValid : IsValid (step c)
    step-IsValid =
        drop-IsValid c (at c.heap 0) _ (popped c.heap).1 v (sym root_key) root_Without
          (popped-SameItems c.heap)

    step_items :
        (k : Text)
        → lookup k (step c).items
          ≡ (if text_eq (c.mem (at c.heap 0)).key k then none else lookup k c.items)
    step_items k = rw root_key (lookup-erase _ k c.items)

    key_kept : (q : ℕ) → ((popped c.heap).1.mem q).key ≡ (c.mem q).key
    key_kept q = ap (λ item. item.key) (popped-SameItems c.heap q)

    exp_kept : (q : ℕ) → ((popped c.heap).1.mem q).expiration ≡ (c.mem q).expiration
    exp_kept q = ap (λ item. item.expiration) (popped-SameItems c.heap q)

    IsDue-before : (k : Text) → IsDue (step c) now k → IsDue c now k
    IsDue-before k (q, held, key, time) =
        (q, (root_Without.brings q held).0, sym (key_kept q) ∙ key, ground (arith, exp_kept q))

    root-IsDue : (k : Text) → text_eq (c.mem (at c.heap 0)).key k ≡ true → IsDue c now k
    root-IsDue k e = (at c.heap 0, (0, full, refl), (text_eq_iff _ k).0 e, due)

    -- What the later rounds do, with this one before them.
    module _ (c' : Cache z) (w : Cleaned (step c) now c') where
      kept_after : (k : Text) → (lookup k c'.items ≡ lookup k c.items) ⊎ IsDue c now k
      kept_after k = elim (Bool-cases (text_eq (c.mem (at c.heap 0)).key k)) [
        | inl same ↦ inr (root-IsDue k same)
        | inr other ↦ elim (w.kept k) [
          | inl e ↦ inl (ground (arith, e, step_items k))
          | inr d ↦ inr (IsDue-before k d)
        ]
      ]

      fewer_after : (k : Text) (p : ℕ) → lookup k c'.items ≡ some p → lookup k c.items ≡ some p
      fewer_after k p e = ground (arith, w.fewer k p e, step_items k)

      gone_after : (k : Text) → IsDue c now k → lookup k c'.items ≡ none
      gone_after k (q, held, key, time) = elim (Bool-cases (q == at c.heap 0)) [
        | inl is_root ↦
            let e : q ≡ at c.heap 0 = ground arith in
            let same : text_eq (c.mem (at c.heap 0)).key k ≡ true =
              (text_eq_iff _ k).1 (ap (λ p. (c.mem p).key) (sym e) ∙ key) in
            elim (Option-cases (lookup k c'.items)) [
              | inl absent ↦ absent
              | inr (p, found) ↦ absurd (ground (arith, w.fewer k p found, step_items k))
            ]
        | inr other ↦ w.gone k (
          q,
          root_Without.keeps q held (λ e. ground arith),
          key_kept q ∙ key,
          ground (arith, exp_kept q),
        )
      ]

      after_step : Cleaned c now c'
      after_step = record {
        valid = w.valid;
        same = λ q. w.same q ∙ popped-SameItems c.heap q;
        fewer = fewer_after;
        kept = kept_after;
        gone = gone_after;
        later = w.later;
      }

  -- Where nothing is due, nothing is done.
  settled :
      (c : Cache z) (now : ℤ)
      → IsValid c
      → ((p : ℕ) → Holds c.heap p → now <ℤ (c.mem p).expiration)
      → Cleaned c now c
  settled c now v later = record {
    valid = v;
    same = λ q. refl;
    fewer = λ k p e. e;
    kept = λ k. inl refl;
    gone = λ k (p, held, key, time). absurd (omega (arith, later p held));
    later = later;
  }

  root_later :
      (c : Cache z) (now : ℤ)
      → IsValid c
      → (len c.heap == 0 || ltb_ℤ now (expiration_at c.heap 0)) ≡ true
      → (p : ℕ) → Holds c.heap p
      → now <ℤ (c.mem p).expiration
  unfolding len
  root_later c now v stop p (i, hi, there) =
      rw (← there) (ground (arith, root_least c.heap i v.heap hi))

  cleanup_loop_total :
      (k : ℕ) (c : Cache z) (now : ℤ)
      → length c.slice ≤ k
      → IsValid c
      → (c' : Cache z) × (cleanup_loop k c now ≡ some c') × Cleaned c now c'
  unfolding cleanup_loop
  cleanup_loop_total zero c now size v =
      (c, refl, settled c now v (λ p (i, hi, there). absurd (omega arith)))
  cleanup_loop_total (suc k) c now size v =
      elim (Bool-cases (len c.heap == 0 || ltb_ℤ now (expiration_at c.heap 0))) [
        | inl stop ↦ (c, rw stop refl, settled c now v (root_later c now v stop))
        | inr more ↦
            let full : 0 < length c.slice = unfold len in ground arith in
            let due : expiration_at c.heap 0 ≤ℤ now = ground arith in
            let popping : pop c.heap ≡ some (popped c.heap) = unfold pop len in ground arith in
            let shorter = (root_Without c now v full due).size in
            let (c', e, w) =
              cleanup_loop_total k (step c) now (omega arith) (step-IsValid c now v full due) in
            (c', rw (more, popping) e, after_step c now v full due c' w)
      ]

  -- In a well-formed cache Cleanup returns, and never panics. It leaves a well-formed cache whose map
  -- is the old one but for the keys of the items in the heap that are due, and none of those are in it.
  pub cleanup_total :
      (c : Cache z) (now : ℤ)
      → IsValid c
      → (c' : Cache z) × (cleanup c now ≡ some c') × Cleaned c now c'
  unfolding cleanup len
  cleanup_total c now v = cleanup_loop_total (length c.slice) c now (omega arith) v

-- ===== src/Heap/Sinking.antt =====
-- cache/cache.go: the sift-down loop of container/heap on the expiration heap.
use ant_cache.Base.{
  ℕ, zero, suc, ◌+◌, ◌*◌, ◌≤◌, ◌<◌, ◌≡◌, refl, inl, inr, ◌⊎◌, Bool-cases, arith, ◌≤ℤ◌, length, ◌==◌,
  if◌then◌else◌, leb, Bool, true, false,
}
use ant_cache.Heap.{Heap, expiration_at, less, swap, first_child, down_loop, down}
use ant_cache.Heap.Order.{
  parent, IsOrdered, IsGap, IsBelowParent, IsAboveChildren, length-swap, expiration_at-swap,
}

module _ {P : Type 0} where
  -- The child that `down` picks expires no later than the other one.
  first_child_least :
      (n : ℕ) (h : Heap P) (i : ℕ)
      → 2 * i + 1 < n
      → (parent (first_child h i n) ≡ i)
        × (first_child h i n < n)
        × (i < first_child h i n)
        × ((c : ℕ)
            → 0 < c
            → c < n
            → parent c ≡ i
            → expiration_at h (first_child h i n) ≤ℤ expiration_at h c)
  unfolding less
  first_child_least n h i q = (ground arith, ground arith, ground arith, λ c r s t. child c r s t)
    where
      child :
          (c : ℕ)
          → 0 < c
          → c < n
          → parent c ≡ i
          → expiration_at h (first_child h i n) ≤ℤ expiration_at h c
      child c r s t =
          let two : (c ≡ 2 * i + 1) ⊎ (c ≡ 2 * i + 1 + 1) = omega arith in
          elim two [ inl e ↦ rw e (ground arith) | inr e ↦ rw e (ground (arith, e)) ]

  -- One step down: the least child `j` of `i` expires before the item at `i`.
  module _ (n : ℕ) (h : Heap P) (i j : ℕ) (fits : n ≤ length h.slice) (hj : j < n) (pj : i < j)
      (child : parent j ≡ i) (early : expiration_at h j ≤ℤ expiration_at h i)
      (least : (c : ℕ) → 0 < c → c < n → parent c ≡ i → expiration_at h j ≤ℤ expiration_at h c)
      (gap : IsGap n h i) where
    fall_exp :
        (c : ℕ)
        → expiration_at (swap h i j) c ≡ (
            if j == c
            then expiration_at h i
            else if i == c
            then expiration_at h j
            else expiration_at h c)
    fall_exp = expiration_at-swap h i j (omega arith) (omega arith)

    fall-IsGap : IsGap n (swap h i j) j
    fall-IsGap = record {
      edges = λ c p q r s.
          ground
            (arith, gap.edges c p q, gap.bridged j, least c p q, fall_exp c, fall_exp (parent c));
      bridged = λ c p q r s. ground (arith, gap.edges c p q, fall_exp c, fall_exp i);
    }

    fall-IsBelowParent : IsBelowParent (swap h i j) j
    fall-IsBelowParent p = ground (arith, fall_exp j, fall_exp i)

  down_loop_rises : (k : ℕ) (h : Heap P) (i n : ℕ) → i ≤ (down_loop k h i n).1
  unfolding down_loop
  down_loop_rises zero h i n = omega arith
  down_loop_rises (suc k) h i n =
      let j = first_child h i n in
      let later : i ≤ j = unfold less in ground arith in
      ground (arith, later, down_loop_rises k (swap h i j) j n)

  down_loop-IsOrdered :
      (k n : ℕ) (h : Heap P) (i : ℕ)
      → n ≤ i + k
      → n ≤ length h.slice
      → IsGap n h i
      → IsBelowParent h i
      → IsOrdered n (down_loop k h i n).0
  unfolding down_loop
  down_loop-IsOrdered zero n h i f fits gap top = λ c p q. ground (arith, gap.edges c p q, top)
  down_loop-IsOrdered (suc k) n h i f fits gap top =
      let j = first_child h i n in
      elim (Bool-cases (leb n (2 * i + 1))) [
        | inl leaf ↦ rw leaf (λ c p q. ground (arith, gap.edges c p q, top))
        | inr inner ↦
            let (child, hj, pj, least) = first_child_least n h i (ground arith) in
            elim (Bool-cases (less h j i)) [
              | inl early ↦
                  let e : expiration_at h j ≤ℤ expiration_at h i = unfold less in ground arith in
                  rw (inner, early)
                    (down_loop-IsOrdered k n (swap h i j) j (omega arith) (rw length-swap fits)
                      (fall-IsGap n h i j fits hj pj child e least gap)
                      (fall-IsBelowParent n h i j fits hj pj child e least gap))
              | inr late ↦
                  rw (inner, late)
                    (λ c p q. unfold less in ground (arith, gap.edges c p q, top, least c p q))
            ]
      ]

  -- What `down` does at a gap: it moves the item and restores the order, or it leaves all as it is
  -- and no child expires before the item.
  abbrev pub Sinks : ℕ → Heap P → ℕ → Heap P × Bool → Type 0
  Sinks n h i (h', moved) =
      ((moved ≡ true) × IsOrdered n h') ⊎ ((moved ≡ false) × (h' ≡ h) × IsAboveChildren n h i)

  pub down-Sinks :
      (n : ℕ) (h : Heap P) (i : ℕ) → n ≤ length h.slice → IsGap n h i → Sinks n h i (down h i n)
  unfolding down down_loop
  down-Sinks n h i fits gap =
      let j = first_child h i n in
      elim (Bool-cases (leb n (2 * i + 1))) [
        | inl leaf ↦ rw leaf (inr (ground arith, refl, λ c p q r. absurd (ground arith)))
        | inr inner ↦
            let (child, hj, pj, least) = first_child_least n h i (ground arith) in
            elim (Bool-cases (less h j i)) [
              | inl early ↦
                  let e : expiration_at h j ≤ℤ expiration_at h i = unfold less in ground arith in
                  rw (inner, early)
                    (inl (
                      ground (arith, down_loop_rises n (swap h i j) j n),
                      down_loop-IsOrdered n n (swap h i j) j (omega arith) (rw length-swap fits)
                          (fall-IsGap n h i j fits hj pj child e least gap)
                          (fall-IsBelowParent n h i j fits hj pj child e least gap),
                    ))
              | inr late ↦
                  rw (inner, late)
                    (inr
                      (ground arith, refl, λ c p q r. unfold less in ground (arith, least c p q)))
            ]
      ]

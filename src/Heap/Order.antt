-- ===== src/Heap/Order.antt =====
-- cache/cache.go: the heap order on the first `n` items, and the sift-up loop of container/heap.
use ant_cache.Base.{
  ℕ, zero, suc, ◌+◌, ◌-◌, ◌/◌, ◌≤◌, ◌<◌, ◌≡◌, ◌≢◌, ap, ◌∙◌, inl, inr, Bool-cases, arith, ◌≤ℤ◌,
  length, set, get_or-set, length-set, ◌==◌, if◌then◌else◌, not, ◌||◌,
}
use ant_cache.Heap.{Heap, at, expiration_at, less, swap, up_loop, up}
use ant_cache.Heap.Frame.{swap-SameItems}

abbrev pub parent : ℕ → ℕ
parent c = (c - 1) / 2

module _ {P : Type 0} where
  -- Among the first `n` items none expires before its parent.
  abbrev pub IsOrdered : ℕ → Heap P → Type 0
  IsOrdered n h = (c : ℕ) → 0 < c → c < n → expiration_at h (parent c) ≤ℤ expiration_at h c

  -- The same but at `i`, where any item may stand.
  pub record IsGap (n : ℕ) (h : Heap P) (i : ℕ) : Type 0 where
    pub edges :
        (c : ℕ)
        → 0 < c
        → c < n
        → c ≢ i
        → parent c ≢ i
        → expiration_at h (parent c) ≤ℤ expiration_at h c
    pub bridged :
        (c : ℕ)
        → 0 < c
        → c < n
        → parent c ≡ i
        → 0 < i
        → expiration_at h (parent i) ≤ℤ expiration_at h c

  abbrev pub IsBelowParent : Heap P → ℕ → Type 0
  IsBelowParent h i = 0 < i → expiration_at h (parent i) ≤ℤ expiration_at h i

  pub length-swap : (h : Heap P) (i j : ℕ) → length (swap h i j).slice ≡ length h.slice
  unfolding swap
  length-swap h i j = length-set _ j _ ∙ length-set h.slice i _

  module _ (h : Heap P) (i j : ℕ) (hi : i < length h.slice) (hj : j < length h.slice) where
    pub at-swap :
        (c : ℕ) → at (swap h i j) c ≡ (if j == c then at h i else if i == c then at h j else at h c)
    unfolding swap
    at-swap c = ground (
      arith,
      length-set h.slice i (at h j),
      get_or-set h.slice i c (at h j) 0,
      λ (p : j < length h.slice). get_or-set (set h.slice i (at h j)) j c (at h i) 0,
    )

    pub expiration_at-swap :
        (c : ℕ)
        → expiration_at (swap h i j) c ≡ (
            if j == c
            then expiration_at h i
            else if i == c
            then expiration_at h j
            else expiration_at h c)
    expiration_at-swap c =
        ap (λ item. item.expiration) (swap-SameItems h i j (at (swap h i j) c))
        ∙ ground (arith, at-swap c)

  -- The items below `j` expire no earlier than the one at `j`.
  abbrev pub IsAboveChildren : ℕ → Heap P → ℕ → Type 0
  IsAboveChildren n h j =
      (c : ℕ) → 0 < c → c < n → parent c ≡ j → expiration_at h j ≤ℤ expiration_at h c

  -- One step up: the item at `j` expires before its parent.
  module _ (n : ℕ) (h : Heap P) (j : ℕ) (fits : n ≤ length h.slice) (hj : j < n) (pj : 0 < j)
      (early : expiration_at h j ≤ℤ expiration_at h (parent j)) (gap : IsGap n h j)
      (below : IsAboveChildren n h j) where
    rise_exp :
        (c : ℕ)
        → expiration_at (swap h (parent j) j) c ≡ (
            if j == c
            then expiration_at h (parent j)
            else if parent j == c
            then expiration_at h j
            else expiration_at h c)
    rise_exp = expiration_at-swap h (parent j) j (omega arith) (omega arith)

    rise-IsGap : IsGap n (swap h (parent j) j) (parent j)
    rise-IsGap = record {
      edges = λ c p q r s.
          ground (arith, gap.edges c p q, gap.bridged c p q, rise_exp c, rise_exp (parent c));
      bridged = λ c p q r s.
          ground (
            arith,
            gap.edges c p q,
            gap.edges (parent j),
            rise_exp c,
            rise_exp (parent (parent j)),
          );
    }

    rise-IsAboveChildren : IsAboveChildren n (swap h (parent j) j) (parent j)
    rise-IsAboveChildren c p q r =
        ground (arith, gap.edges c p q, below c p q, rise_exp c, rise_exp (parent j))

  up_loop-IsOrdered :
      (k n : ℕ) (h : Heap P) (j : ℕ)
      → j < k
      → n ≤ length h.slice
      → j < n
      → IsGap n h j
      → IsAboveChildren n h j
      → IsOrdered n (up_loop k h j)
  unfolding up_loop
  up_loop-IsOrdered zero n h j f fits hj gap below = absurd (omega arith)
  up_loop-IsOrdered (suc k) n h j f fits hj gap below =
      let i = parent j in
      elim (Bool-cases (i == j || not (less h j i))) [
        | inl stop ↦ rw stop (λ c p q. unfold less in ground (arith, gap.edges c p q, below c p q))
        | inr more ↦
            let early : expiration_at h j ≤ℤ expiration_at h i = unfold less in ground arith in
            let pj : 0 < j = ground arith in
            rw more (
              up_loop-IsOrdered k n (swap h i j) i (omega arith) (rw length-swap fits) (omega arith)
                (rise-IsGap n h j fits hj pj early gap below)
                (rise-IsAboveChildren n h j fits hj pj early gap below))
      ]

  pub up-IsOrdered :
      (n : ℕ) (h : Heap P) (j : ℕ)
      → n ≤ length h.slice
      → j < n
      → IsGap n h j
      → IsAboveChildren n h j
      → IsOrdered n (up h j)
  unfolding up
  up-IsOrdered n h j fits hj gap below =
      up_loop-IsOrdered (j + 1) n h j (omega arith) fits hj gap below

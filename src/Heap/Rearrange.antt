-- ===== src/Heap/Rearrange.antt =====
-- cache/cache.go: the sift loops of container/heap as rearrangements of the slice.
use ant_cache.Base.{
  ℕ, zero, suc, ◌+◌, ◌*◌, ◌≤◌, ◌<◌, pos, ◌≡◌, refl, ◌∙◌, inl, inr, Bool-cases, arith, length, ◌==◌,
  if◌then◌else◌, not, ◌||◌, leb, false,
}
use ant_cache.Heap.{Heap, at, less, swap, first_child, up_loop, up, down_loop, down}
use ant_cache.Heap.Order.{parent, length-swap, at-swap}

-- Where the item at `c` is after the positions `i` and `j` are swapped.
abbrev moved_to : ℕ → ℕ → ℕ → ℕ
moved_to i j c = if c == i then j else if c == j then i else c

module _ {P : Type 0} where
  -- Every item of the slice has its position in `index`.
  abbrev pub IsIndexed : Heap P → Type 0
  IsIndexed h = (i : ℕ) → i < length h.slice → (h.mem (at h i)).index ≡ pos i

  -- The item `p` stands in the slice.
  abbrev pub Holds : Heap P → ℕ → Type 0
  Holds h p = (i : ℕ) × (i < length h.slice) × (at h i ≡ p)

  -- `h'` has the items of `h`, in some order.
  pub record Rearranges (h' h : Heap P) : Type 0 where
    pub size : length h'.slice ≡ length h.slice
    pub indexed : IsIndexed h → IsIndexed h'
    pub keeps : (p : ℕ) → Holds h p → Holds h' p
    pub brings : (p : ℕ) → Holds h' p → Holds h p

  pub Rearranges-refl : (h : Heap P) → Rearranges h h
  Rearranges-refl h = record { size = refl; indexed = λ x. x; keeps = λ p x. x; brings = λ p x. x }

  pub Rearranges-trans :
      {h'' h' h : Heap P} → Rearranges h'' h' → Rearranges h' h → Rearranges h'' h
  Rearranges-trans b a = record {
    size = b.size ∙ a.size;
    indexed = λ x. b.indexed (a.indexed x);
    keeps = λ p x. b.keeps p (a.keeps p x);
    brings = λ p x. a.brings p (b.brings p x);
  }

  module _ (h : Heap P) (i j : ℕ) (hi : i < length h.slice) (hj : j < length h.slice) where
    swap-IsIndexed : IsIndexed h → IsIndexed (swap h i j)
    unfolding swap
    swap-IsIndexed x c hc =
        let inside : c < length h.slice = rw (length-swap h i j) at hc in
        rw (at-swap h i j hi hj c) (ground (arith, x i hi, x j hj, x c inside))

    swap-keeps : (p : ℕ) → Holds h p → Holds (swap h i j) p
    swap-keeps p (c, hc, e) = (
      moved_to i j c,
      rw length-swap (ground arith),
      ground (arith, at-swap h i j hi hj (moved_to i j c)),
    )

    swap-brings : (p : ℕ) → Holds (swap h i j) p → Holds h p
    swap-brings p (c, hc, e) =
        let inside : c < length h.slice = rw (length-swap h i j) at hc in
        (
          if j == c then i else if i == c then j else c,
          ground arith,
          ground (arith, at-swap h i j hi hj c),
        )

    pub swap-Rearranges : Rearranges (swap h i j) h
    swap-Rearranges = record {
      size = length-swap h i j;
      indexed = swap-IsIndexed;
      keeps = swap-keeps;
      brings = swap-brings;
    }

  up_loop-Rearranges :
      (k : ℕ) (h : Heap P) (j : ℕ) → j < length h.slice → Rearranges (up_loop k h j) h
  unfolding up_loop
  up_loop-Rearranges zero h j hj = Rearranges-refl h
  up_loop-Rearranges (suc k) h j hj =
      let i = parent j in
      elim (Bool-cases (i == j || not (less h j i))) [
        | inl stop ↦ rw stop (Rearranges-refl h)
        | inr more ↦ rw more (
            Rearranges-trans (up_loop-Rearranges k (swap h i j) i (rw length-swap (omega arith)))
              (swap-Rearranges h i j (omega arith) hj))
      ]

  pub up-Rearranges : (h : Heap P) (j : ℕ) → j < length h.slice → Rearranges (up h j) h
  unfolding up
  up-Rearranges h j hj = up_loop-Rearranges (j + 1) h j hj

  first_child_below :
      (h : Heap P) (i n : ℕ)
      → leb n (2 * i + 1) ≡ false
      → (first_child h i n < n) × (i < first_child h i n)
  first_child_below h i n e = (ground arith, ground arith)

  down_loop-Rearranges :
      (k : ℕ) (h : Heap P) (i n : ℕ) → n ≤ length h.slice → Rearranges (down_loop k h i n).0 h
  unfolding down_loop
  down_loop-Rearranges zero h i n fits = Rearranges-refl h
  down_loop-Rearranges (suc k) h i n fits =
      let j = first_child h i n in
      elim (Bool-cases (leb n (2 * i + 1) || not (less h j i))) [
        | inl stop ↦ rw stop (Rearranges-refl h)
        | inr more ↦
            let (hj, pj) = first_child_below h i n (ground arith) in
            rw more (
              Rearranges-trans (down_loop-Rearranges k (swap h i j) j n (rw length-swap fits))
                (swap-Rearranges h i j (omega arith) (omega arith)))
      ]

  pub down-Rearranges : (h : Heap P) (i n : ℕ) → n ≤ length h.slice → Rearranges (down h i n).0 h
  unfolding down
  down-Rearranges h i n fits = down_loop-Rearranges (suc n) h i n fits

  -- `up` from `j` leaves the positions behind `j` alone, `down` those from `n` on.
  up_loop-at :
      (k : ℕ) (h : Heap P) (j c : ℕ) → j < c → j < length h.slice → at (up_loop k h j) c ≡ at h c
  unfolding up_loop
  up_loop-at zero h j c hc hj = refl
  up_loop-at (suc k) h j c hc hj =
      let i = parent j in
      elim (Bool-cases (i == j || not (less h j i))) [
        | inl stop ↦ rw stop refl
        | inr more ↦ rw more (
            up_loop-at k (swap h i j) i c (omega arith) (rw length-swap (omega arith))
            ∙ ground (arith, at-swap h i j (omega arith) hj c))
      ]

  pub up-at : (h : Heap P) (j c : ℕ) → j < c → j < length h.slice → at (up h j) c ≡ at h c
  unfolding up
  up-at h j c hc hj = up_loop-at (j + 1) h j c hc hj

  down_loop-at :
      (k : ℕ) (h : Heap P) (i n c : ℕ)
      → n ≤ c
      → n ≤ length h.slice
      → at (down_loop k h i n).0 c ≡ at h c
  unfolding down_loop
  down_loop-at zero h i n c hc fits = refl
  down_loop-at (suc k) h i n c hc fits =
      let j = first_child h i n in
      elim (Bool-cases (leb n (2 * i + 1) || not (less h j i))) [
        | inl stop ↦ rw stop refl
        | inr more ↦
            let (hj, pj) = first_child_below h i n (ground arith) in
            rw more (
              down_loop-at k (swap h i j) j n c hc (rw length-swap fits)
              ∙ ground (arith, at-swap h i j (omega arith) (omega arith) c))
      ]

  pub down-at : (h : Heap P) (i n c : ℕ) → n ≤ c → n ≤ length h.slice → at (down h i n).0 c ≡ at h c
  unfolding down
  down-at h i n c hc fits = down_loop-at (suc n) h i n c hc fits

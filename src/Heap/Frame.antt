-- ===== src/Heap/Frame.antt =====
-- cache/cache.go: what the operations of the expiration heap leave alone.
use ant_cache.Base.{
  ℕ, zero, suc, ◌+◌, ◌-◌, ◌*◌, ◌/◌, ℤ, pos, ◌≡◌, refl, ◌∙◌, inl, inr, Bool-cases, arith, ◌==◌, not,
  ◌||◌, leb,
}
use ant_cache.Item.{Memory, set_index, strip}
use ant_cache.Heap.{
  Heap, at, less, swap, first_child, append_item, cut_item, up_loop, up, down_loop, down, push,
  popped, detach, removed, len,
}

module _ {P : Type 0} where
  -- The memories agree but for indices.
  abbrev pub SameItems : Memory P → Memory P → Type 0
  SameItems a b = (q : ℕ) → strip (a q) ≡ strip (b q)

  set_index-SameItems : (mem : Memory P) (p : ℕ) (i : ℤ) → SameItems (set_index mem p i) mem
  set_index-SameItems mem p i q = ground arith

  pub swap-SameItems : (h : Heap P) (i j : ℕ) → SameItems (swap h i j).mem h.mem
  unfolding swap
  swap-SameItems h i j q =
      set_index-SameItems (set_index h.mem (at h j) (pos i)) (at h i) (pos j) q
      ∙ set_index-SameItems h.mem (at h j) (pos i) q

  up_loop-SameItems : (k : ℕ) (h : Heap P) (j : ℕ) → SameItems (up_loop k h j).mem h.mem
  unfolding up_loop
  up_loop-SameItems zero h j q = refl
  up_loop-SameItems (suc k) h j q =
      elim (Bool-cases (((j - 1) / 2) == j || not (less h j ((j - 1) / 2)))) [
        | inl stop ↦ rw stop refl
        | inr more ↦ rw more (
            up_loop-SameItems k (swap h ((j - 1) / 2) j) ((j - 1) / 2) q
            ∙ swap-SameItems h ((j - 1) / 2) j q)
      ]

  down_loop-SameItems : (k : ℕ) (h : Heap P) (i n : ℕ) → SameItems (down_loop k h i n).0.mem h.mem
  unfolding down_loop
  down_loop-SameItems zero h i n q = refl
  down_loop-SameItems (suc k) h i n q =
      let j = first_child h i n in
      elim (Bool-cases (leb n (2 * i + 1) || not (less h j i))) [
        | inl stop ↦ rw stop refl
        | inr more ↦ rw more (down_loop-SameItems k (swap h i j) j n q ∙ swap-SameItems h i j q)
      ]

  pub down-SameItems : (h : Heap P) (i n : ℕ) → SameItems (down h i n).0.mem h.mem
  unfolding down
  down-SameItems h i n q = down_loop-SameItems (suc n) h i n q

  pub cut_item-SameItems : (h : Heap P) → SameItems (cut_item h).1.mem h.mem
  unfolding cut_item
  cut_item-SameItems h q = set_index-SameItems h.mem _ _ q

  pub append_item-SameItems : (h : Heap P) (p : ℕ) → SameItems (append_item h p).mem h.mem
  unfolding append_item
  append_item-SameItems h p q = set_index-SameItems h.mem p _ q

  pub push-SameItems : (h : Heap P) (p : ℕ) → SameItems (push h p).mem h.mem
  unfolding push up append_item
  push-SameItems h p q = up_loop-SameItems _ (append_item h p) _ q ∙ set_index-SameItems h.mem p _ q

  pub popped-SameItems : (h : Heap P) → SameItems (popped h).1.mem h.mem
  unfolding popped
  popped-SameItems h q =
      cut_item-SameItems (down (swap h 0 (len h - 1)) 0 (len h - 1)).0 q
      ∙ down-SameItems (swap h 0 (len h - 1)) 0 (len h - 1) q
      ∙ swap-SameItems h 0 (len h - 1) q

  pub detach-SameItems : (h : Heap P) (i : ℕ) → SameItems (detach h i).mem h.mem
  unfolding detach up
  detach-SameItems h i q =
      let n = len h - 1 in
      let sunk = down-SameItems (swap h i n) i n q ∙ swap-SameItems h i n q in
      elim (Bool-cases (n == i)) [
        | inl last ↦ rw last refl
        | inr inner ↦ elim (Bool-cases (down (swap h i n) i n).1) [
          | inl moved ↦ rw (inner, moved) sunk
          | inr still ↦ rw (inner, still) (up_loop-SameItems _ _ i q ∙ sunk)
        ]
      ]

  pub removed-SameItems : (h : Heap P) (i : ℕ) → SameItems (removed h i).1.mem h.mem
  unfolding removed
  removed-SameItems h i q = cut_item-SameItems (detach h i) q ∙ detach-SameItems h i q

-- ===== src/Heap/Removal.antt =====
-- cache/cache.go: Pop and Remove of container/heap on the expiration heap.
use ant_cache.Base.{
  ℕ, suc, ◌+◌, ◌-◌, ◌≤◌, ◌<◌, pos, ◌≡◌, ◌≢◌, refl, ap, ◌∙◌, sym, inl, inr, Bool-cases, arith,
  length, length-take, get_or-take, ◌==◌, if◌then◌else◌, false,
}
use ant_cache.Heap.{Heap, at, expiration_at, len, swap, up, down, cut_item, popped, detach, removed}
use ant_cache.Heap.Frame.{cut_item-SameItems}
use ant_cache.Heap.Order.{
  parent, IsOrdered, IsGap, length-swap, at-swap, expiration_at-swap, up-IsOrdered,
}
use ant_cache.Heap.Sinking.{down-Sinks}
use ant_cache.Heap.Valid.{IsHeap}
use ant_cache.Heap.Rearrange.{
  IsIndexed, Holds, Rearranges, Rearranges-refl, Rearranges-trans, swap-Rearranges, up-Rearranges,
  up-at, down-Rearranges, down-at,
}

module _ {P : Type 0} where
  -- `h'` is a heap of the items of `h` without `p`.
  pub record Without (h : Heap P) (p : ℕ) (h' : Heap P) : Type 0 where
    pub valid : IsHeap h'
    pub size : length h'.slice + 1 ≡ length h.slice
    pub was_there : Holds h p
    pub keeps : (q : ℕ) → Holds h q → q ≢ p → Holds h' q
    pub brings : (q : ℕ) → Holds h' q → Holds h q × (q ≢ p)

  -- Cutting the last item off a heap that is in order before it.
  module _ (h : Heap P) (n : ℕ) (size : length h.slice ≡ suc n) where
    cut_length : length (cut_item h).1.slice ≡ n
    unfolding cut_item
    cut_length = length-take (length h.slice - 1) h.slice (omega arith) ∙ omega arith

    cut_at : (c : ℕ) → c < n → at (cut_item h).1 c ≡ at h c
    unfolding cut_item
    cut_at c hc = get_or-take (length h.slice - 1) h.slice c 0 (omega arith)

    cut_last : (cut_item h).0 ≡ at h n
    unfolding cut_item
    cut_last = ap (at h) (omega arith)

    cut_expiration : (c : ℕ) → c < n → expiration_at (cut_item h).1 c ≡ expiration_at h c
    cut_expiration c hc =
        ap (λ item. item.expiration) (cut_item-SameItems h (at (cut_item h).1 c))
        ∙ ap (λ p. (h.mem p).expiration) (cut_at c hc)

    cut_index : (c : ℕ) → c < n → IsIndexed h → ((cut_item h).1.mem (at h c)).index ≡ pos c
    unfolding cut_item
    cut_index c hc x = ground (arith, x c, x (length h.slice - 1))

    cut-IsHeap : IsOrdered n h → IsIndexed h → IsHeap (cut_item h).1
    cut-IsHeap o x = record {
      ordered = λ c p q.
          let hc : c < n = rw cut_length at q in
          rw (cut_expiration c hc, cut_expiration (parent c) (omega arith)) (o c p hc);
      indexed = λ c q. let hc : c < n = rw cut_length at q in rw (cut_at c hc) (cut_index c hc x);
    }

    -- Two positions of an indexed heap hold different items.
    distinct : (c : ℕ) → c < n → IsIndexed h → at h c ≢ at h n
    distinct c hc x e = ground (arith, x c, x n)

    cut-Without : IsOrdered n h → IsIndexed h → Without h (cut_item h).0 (cut_item h).1
    cut-Without o x = record {
      valid = cut-IsHeap o x;
      size = omega (arith, cut_length);
      was_there = (n, omega arith, sym cut_last);
      keeps = λ q (c, hc, e) ne.
          let before : c < n = ground (arith, cut_last) in
          (c, rw cut_length before, cut_at c before ∙ e);
      brings = λ q (c, hc, e).
          let before : c < n = rw cut_length at hc in
          let there = sym (cut_at c before) ∙ e in
          ((c, omega arith, there), λ eq. distinct c before x (there ∙ eq ∙ cut_last));
    }

  Without-Rearranges :
      {h h' h'' : Heap P} {p : ℕ} → Rearranges h' h → Without h' p h'' → Without h p h''
  Without-Rearranges r w = record {
    valid = w.valid;
    size = w.size ∙ r.size;
    was_there = r.brings _ w.was_there;
    keeps = λ q x ne. w.keeps q (r.keeps q x) ne;
    brings = λ q x. (r.brings q (w.brings q x).0, (w.brings q x).1);
  }

  -- After the swap with the last item there is a gap at `i` among the others.
  module _ (h : Heap P) (i n : ℕ) (size : length h.slice ≡ suc n) (hi : i < n) (v : IsHeap h) where
    swapped_exp :
        (c : ℕ)
        → expiration_at (swap h i n) c ≡ (
            if n == c
            then expiration_at h i
            else if i == c
            then expiration_at h n
            else expiration_at h c)
    swapped_exp = expiration_at-swap h i n (omega arith) (omega arith)

    swapped-IsGap : IsGap n (swap h i n) i
    swapped-IsGap = record {
      edges =
          λ c p q r s. ground (arith, size, v.ordered c p, swapped_exp c, swapped_exp (parent c));
      bridged = λ c p q r s.
          ground (arith, size, v.ordered c p, v.ordered i s, swapped_exp c, swapped_exp (parent i));
    }

    fits : n ≤ length (swap h i n).slice
    fits = rw length-swap (omega arith)

    detach_eq : detach h i ≡ (
        if (down (swap h i n) i n).1
        then (down (swap h i n) i n).0
        else up (down (swap h i n) i n).0 i)
    unfolding detach len
    detach_eq =
        let last : length h.slice - 1 ≡ n = omega arith in
        let other : (n == i) ≡ false = ground arith in rw (last, other) refl

    swapped_Rearranges : Rearranges (swap h i n) h
    swapped_Rearranges = swap-Rearranges h i n (omega arith) (omega arith)

    swapped_last : at (swap h i n) n ≡ at h i
    swapped_last = ground (arith, at-swap h i n (omega arith) (omega arith) n)

    detach_inner :
        Rearranges (detach h i) h × IsOrdered n (detach h i) × (at (detach h i) n ≡ at h i)
    detach_inner = rw detach_eq (elim (down-Sinks n (swap h i n) i fits swapped-IsGap) [
      | inl (moved, o) ↦ rw moved (
        Rearranges-trans (down-Rearranges (swap h i n) i n fits) swapped_Rearranges,
        o,
        down-at (swap h i n) i n n (omega arith) fits ∙ swapped_last,
      )
      | inr (still, same, above) ↦
          rw (still, same)
            (
              Rearranges-trans (up-Rearranges (swap h i n) i (omega (arith, fits)))
                  swapped_Rearranges,
              up-IsOrdered n (swap h i n) i fits hi swapped-IsGap above,
              up-at (swap h i n) i n hi (omega (arith, fits)) ∙ swapped_last,
            )
    ])

  detach_all :
      (h : Heap P) (i n : ℕ)
      → length h.slice ≡ suc n
      → i < suc n
      → IsHeap h
      → Rearranges (detach h i) h × IsOrdered n (detach h i) × (at (detach h i) n ≡ at h i)
  unfolding detach len
  detach_all h i n size hi v = elim (Bool-cases (n == i)) [
    | inl same ↦
        let last : length h.slice - 1 ≡ n = omega arith in
        let e : n ≡ i = ground arith in
        rw (last, same) (Rearranges-refl h, (λ c p q. v.ordered c p (omega arith)), ap (at h) e)
    | inr other ↦ detach_inner h i n size (ground arith) v
  ]

  -- On a well-formed heap, Remove at a position inside it returns the item that stands there, and
  -- leaves a well-formed heap of exactly the other items.
  pub removed-Without :
      (h : Heap P) (i : ℕ)
      → IsHeap h
      → i < length h.slice
      → ((removed h i).0 ≡ at h i) × Without h (at h i) (removed h i).1
  unfolding removed
  removed-Without h i v hi =
      let n = length h.slice - 1 in
      let size : length h.slice ≡ suc n = omega arith in
      let (r, o, last) = detach_all h i n size (omega arith) v in
      let e : (cut_item (detach h i)).0 ≡ at h i = cut_last (detach h i) n (r.size ∙ size) ∙ last in
      (
        e,
        rw e at (
            Without-Rearranges r
              (cut-Without (detach h i) n (r.size ∙ size) o (r.indexed v.indexed))),
      )

  popped_parts :
      (h : Heap P) (n : ℕ)
      → length h.slice ≡ suc n
      → IsHeap h
      → Rearranges (down (swap h 0 n) 0 n).0 h
        × IsOrdered n (down (swap h 0 n) 0 n).0
        × (at (down (swap h 0 n) 0 n).0 n ≡ at h 0)
  popped_parts h n size v =
      let swapped = swap-Rearranges h 0 n (omega arith) (omega arith) in
      let fits : n ≤ length (swap h 0 n).slice = rw length-swap (omega arith) in
      let gap : IsGap n (swap h 0 n) 0 = elim (Bool-cases (n == 0)) [
        | inl empty ↦ record {
          edges = λ c p q r s. absurd (ground arith);
          bridged = λ c p q r s. absurd (ground arith);
        }
        | inr some_left ↦ swapped-IsGap h 0 n size (ground arith) v
      ] in
      (
        Rearranges-trans (down-Rearranges (swap h 0 n) 0 n fits) swapped,
        elim (down-Sinks n (swap h 0 n) 0 fits gap) [
          | inl (moved, o) ↦ o
          | inr (still, same, above) ↦
              rw same (λ c p q. ground (arith, gap.edges c p q, above c p q))
        ],
        down-at (swap h 0 n) 0 n n (omega arith) fits
            ∙ ground (arith, at-swap h 0 n (omega arith) (omega arith) n),
      )

  -- On a well-formed heap that is not empty, Pop returns the item at the root and leaves a
  -- well-formed heap of exactly the other items.
  pub popped-Without :
      (h : Heap P)
      → IsHeap h
      → 0 < length h.slice
      → ((popped h).0 ≡ at h 0) × Without h (at h 0) (popped h).1
  unfolding popped len
  popped-Without h v pos_len =
      let n = length h.slice - 1 in
      let size : length h.slice ≡ suc n = omega arith in
      let (r, o, last) = popped_parts h n size v in
      let d = (down (swap h 0 n) 0 n).0 in
      let e : (cut_item d).0 ≡ at h 0 = cut_last d n (r.size ∙ size) ∙ last in
      (e, rw e at (Without-Rearranges r (cut-Without d n (r.size ∙ size) o (r.indexed v.indexed))))

-- ===== src/Heap/Insertion.antt =====
-- cache/cache.go: Push of container/heap on the expiration heap.
use ant_cache.Base.{
  ℕ, suc, ◌+◌, ◌-◌, ◌<◌, ◌≡◌, ap, ◌∙◌, sym, inl, inr, ◌⊎◌, Bool-cases, arith, [], ◌∷◌, length,
  length-append, get_or-append, get_or-append_last, ◌==◌,
}
use ant_cache.Heap.{Heap, at, expiration_at, len, append_item, push}
use ant_cache.Heap.Frame.{append_item-SameItems}
use ant_cache.Heap.Order.{parent, IsGap, up-IsOrdered}
use ant_cache.Heap.Rearrange.{IsIndexed, Holds, up-Rearranges}
use ant_cache.Heap.Valid.{IsHeap}

module _ {P : Type 0} where
  -- `h'` is a heap of the items of `h` and `p`.
  pub record With (h : Heap P) (p : ℕ) (h' : Heap P) : Type 0 where
    pub valid : IsHeap h'
    pub size : length h'.slice ≡ length h.slice + 1
    pub has : Holds h' p
    pub keeps : (q : ℕ) → Holds h q → Holds h' q
    pub brings : (q : ℕ) → Holds h' q → Holds h q ⊎ (q ≡ p)

  module _ (h : Heap P) (p : ℕ) (v : IsHeap h) (new : ¬ Holds h p) where
    append_length : length (append_item h p).slice ≡ suc (length h.slice)
    unfolding append_item
    append_length = length-append h.slice (p ∷ []) ∙ omega arith

    append_at : (c : ℕ) → c < length h.slice → at (append_item h p) c ≡ at h c
    unfolding append_item
    append_at c hc = get_or-append h.slice (p ∷ []) c 0 hc

    append_last : at (append_item h p) (length h.slice) ≡ p
    unfolding append_item
    append_last = get_or-append_last h.slice p 0

    append_exp :
        (c : ℕ) → c < length h.slice → expiration_at (append_item h p) c ≡ expiration_at h c
    append_exp c hc =
        ap (λ item. item.expiration) (append_item-SameItems h p (at (append_item h p) c))
        ∙ ap (λ q. (h.mem q).expiration) (append_at c hc)

    append-IsIndexed : IsIndexed (append_item h p)
    append-IsIndexed c hc = elim (Bool-cases (c == length h.slice)) [
      | inl end ↦
          let e : c ≡ length h.slice = ground arith in
          rw (e, append_last) (unfold append_item in ground arith)
      | inr before ↦
          let inside : c < length h.slice = ground (arith, append_length) in
          rw (append_at c inside) (
            unfold append_item in
            elim (Bool-cases (at h c == p)) [
              | inl same ↦ absurd (new (c, inside, ground arith))
              | inr other ↦ rw other (v.indexed c inside)
            ])
    ]

    append-IsGap :
        (j : ℕ) → j ≡ length h.slice → IsGap (length (append_item h p).slice) (append_item h p) j
    append-IsGap j e = record {
      edges = λ c r s t u.
          ground (arith, append_length, v.ordered c r, append_exp c, append_exp (parent c));
      bridged = λ c r s t u. absurd (omega (arith, append_length));
    }

    append_brings : (q : ℕ) → Holds (append_item h p) q → Holds h q ⊎ (q ≡ p)
    append_brings q (c, hc, e) = elim (Bool-cases (c == length h.slice)) [
      | inl end ↦
          let at_end : c ≡ length h.slice = ground arith in
          inr (sym e ∙ ap (at (append_item h p)) at_end ∙ append_last)
      | inr before ↦
          let inside : c < length h.slice = ground (arith, append_length) in
          inl (c, inside, sym (append_at c inside) ∙ e)
    ]

    -- Push of an item that a well-formed heap does not hold leaves a well-formed heap of exactly the
    -- items that it held and the new one.
    pub push-With : With h p (push h p)
    unfolding push len
    push-With =
        let n = length h.slice in
        let j = length (append_item h p).slice - 1 in
        let at_end : j ≡ n = omega (arith, append_length) in
        let inside : j < length (append_item h p).slice = omega (arith, append_length) in
        let r = up-Rearranges (append_item h p) j inside in
        let ordered =
          up-IsOrdered _ (append_item h p) j (omega arith) inside (append-IsGap j at_end)
            (λ c q s t. absurd (omega (arith, append_length))) in
        record {
          valid = record { ordered = rw r.size ordered; indexed = r.indexed append-IsIndexed };
          size = omega (arith, r.size, append_length);
          has = r.keeps p (n, omega (arith, append_length), append_last);
          keeps = λ q (c, hc, e). r.keeps q (c, omega (arith, append_length), append_at c hc ∙ e);
          brings = λ q x. append_brings q (r.brings q x);
        }

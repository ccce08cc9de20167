-- ===== src/Cache/Valid.antt =====
-- cache/cache.go: the well-formedness of a Cache, and the methods that add items.
use ant_cache.Base.{
  ℕ, ◌<◌, ◌≡◌, refl, ap, ◌∙◌, inl, inr, ◌⊎◌, Bool-cases, arith, ℤ, pos, ◌<ℤ◌, Text, some, ltb_ℤ,
  lookup, lookup-insert, text_eq, text_eq_iff, ◌==◌, length, Bool, true,
}
use ant_cache.Item.{Value, CacheItem, Compression, update, strip}
use ant_cache.Heap.{Heap, at, push}
use ant_cache.Heap.Order.{parent}
use ant_cache.Heap.Rearrange.{Holds}
use ant_cache.Heap.Valid.{IsHeap}
use ant_cache.Heap.Insertion.{With, push-With}
use ant_cache.Cache.{
  add_item, Cache, alloc, item_of, expiration_of, put_item, logged, set, set_nx, live, flush_all,
  new,
}
use ant_cache.Cache.Items.{add_item-new, add_item-old, add_item-items, add_item-next}

-- The heap is one; an item of the map that expires stands in it; the map gives each key an item of
-- that key; and no address from `next` on is in use.
pub record IsValid {z : Compression} (c : Cache z) : Type 0 where
  pub heap : IsHeap c.heap
  pub tracked :
      (k : Text) (p : ℕ)
      → lookup k c.items ≡ some p
      → pos 0 <ℤ (c.mem p).expiration
      → Holds c.heap p
  pub keyed : (k : Text) (p : ℕ) → lookup k c.items ≡ some p → (c.mem p).key ≡ k
  pub mapped_used : (k : Text) (p : ℕ) → lookup k c.items ≡ some p → p < c.next
  pub heaped_used : (p : ℕ) → Holds c.heap p → p < c.next

module _ {P : Type 0} where
  -- A write to an item that does not stand in the heap.
  pub IsHeap-update :
      (h : Heap P) (p : ℕ) (item : CacheItem P)
      → IsHeap h
      → ¬ Holds h p
      → IsHeap (record h { mem = update h.mem p item })
  IsHeap-update h p item v unheaped = record {
    ordered = λ c q r. ground (arith, kept c r, kept (parent c), v.ordered c q r);
    indexed = λ c r. ground (arith, kept c r, v.indexed c r);
  }
    where
      kept : (c : ℕ) → c < length h.slice → update h.mem p item (at h c) ≡ h.mem (at h c)
      kept c r = elim (Bool-cases (at h c == p)) [
        | inl same ↦ absurd (unheaped (c, r, ground arith))
        | inr other ↦ rw other refl
      ]

module _ {z : Compression} (c : Cache z) (key : Text) (item : CacheItem z.Packed) (expiring : Bool)
    (v : IsValid c) where
  unheaped : ¬ Holds c.heap c.next
  unheaped x = absurd (omega (arith, v.heaped_used c.next x))

  -- The heap after a new item: with the item if that is pushed, and else as it was.
  pub add_item-heap :
      IsHeap (add_item c key item expiring).heap
      × ((q : ℕ) → Holds c.heap q → Holds (add_item c key item expiring).heap q)
      × (expiring ≡ true → Holds (add_item c key item expiring).heap c.next)
      × ((q : ℕ) → Holds (add_item c key item expiring).heap q → Holds c.heap q ⊎ (q ≡ c.next))
  unfolding add_item alloc
  add_item-heap =
      let h = (alloc c item).heap in
      let valid : IsHeap h = IsHeap-update c.heap c.next item v.heap unheaped in
      elim (Bool-cases expiring) [
        | inl pushed ↦
            let w : With h c.next (push h c.next) = push-With h c.next valid unheaped in
            rw pushed (w.valid, w.keeps, (λ _. w.has), w.brings)
        | inr lasting ↦ rw lasting (valid, (λ q x. x), (λ pushed. cc), (λ q x. inl x))
      ]

  -- An entry of the map after a new item is the new one, or an old one with the item that it had.
  pub add_item-entry :
      (k : Text) (p : ℕ)
      → lookup k (add_item c key item expiring).items ≡ some p
      → ((key ≡ k) × (p ≡ c.next))
        ⊎ ((lookup k c.items ≡ some p)
            × (strip ((add_item c key item expiring).mem p) ≡ strip (c.mem p)))
  add_item-entry k p e =
      let e' = rw (add_item-items, lookup-insert) at e in
      elim (Bool-cases (text_eq key k)) [
        | inl same ↦ inl ((text_eq_iff key k).0 same, ground arith)
        | inr other ↦
            let old : lookup k c.items ≡ some p = ground arith in
            inr (
              old,
              add_item-old c key item expiring p
                  (λ eq. absurd (omega (arith, v.mapped_used k p old))),
            )
      ]

  -- An item of the key that is pushed if it expires keeps the cache well formed.
  pub add_item-IsValid :
      item.key ≡ key
      → (pos 0 <ℤ item.expiration → expiring ≡ true)
      → IsValid (add_item c key item expiring)
  add_item-IsValid named timed =
      let (valid, keeps, has, brings) = add_item-heap in
      let new = add_item-new c key item expiring in
      record {
        heap = valid;
        tracked = λ k p e alive. elim (add_item-entry k p e) [
          | inl (_, q) ↦ rw q (has (timed (ground (arith, q, ap (λ i. i.expiration) new))))
          | inr (old, same) ↦
              keeps p (v.tracked k p old (ground (arith, ap (λ i. i.expiration) same)))
        ];
        keyed = λ k p e. elim (add_item-entry k p e) [
          | inl (eq, q) ↦ rw q (ap (λ i. i.key) new ∙ named ∙ eq)
          | inr (old, same) ↦ ap (λ i. i.key) same ∙ v.keyed k p old
        ];
        mapped_used = λ k p e. rw add_item-next (elim (add_item-entry k p e) [
          | inl (_, q) ↦ omega arith
          | inr (old, _) ↦ omega (arith, v.mapped_used k p old)
        ]);
        heaped_used = λ p x. rw add_item-next (elim (brings p x) [
          | inl old ↦ omega (arith, v.heaped_used p old)
          | inr q ↦ omega arith
        ]);
      }

-- What expires was given a time to live.
pub expiring_ttl : (now ttl : ℤ) → pos 0 <ℤ expiration_of now ttl → ltb_ℤ (pos 0) ttl ≡ true
unfolding expiration_of
expiring_ttl now ttl h = ground arith

module _ {z : Compression} where
  put_item-IsValid :
      (c : Cache z) (now : ℤ) (key : Text) (value : Value z.Packed) (ttl : ℤ)
      → IsValid c
      → IsValid (put_item c now key value ttl)
  unfolding put_item
  put_item-IsValid c now key value ttl v =
      add_item-IsValid c key (item_of c now key value ttl) (ltb_ℤ (pos 0) ttl) v refl
        (expiring_ttl now ttl)

  pub logged-IsValid :
      (c : Cache z) (now : ℤ) (type key : Text) (value : Value z.Packed) (ttl : ℤ)
      → IsValid c
      → IsValid (logged c now type key value ttl)
  unfolding logged
  logged-IsValid c now type key value ttl v = record {
    heap = v.heap;
    tracked = v.tracked;
    keyed = v.keyed;
    mapped_used = v.mapped_used;
    heaped_used = v.heaped_used;
  }

  -- Set keeps a well-formed cache well formed.
  pub set-IsValid :
      (c : Cache z) (now : ℤ) (key : Text) (value : Value z.Packed) (ttl : ℤ)
      → IsValid c
      → IsValid (set c now key value ttl)
  unfolding set
  set-IsValid c now key value ttl v =
      logged-IsValid _ now _ key value ttl (put_item-IsValid c now key value ttl v)

  pub set_nx-IsValid :
      (c : Cache z) (now : ℤ) (key : Text) (value : Value z.Packed) (ttl : ℤ)
      → IsValid c
      → IsValid (set_nx c now key value ttl).1
  unfolding set_nx
  set_nx-IsValid c now key value ttl v = elim (Bool-cases (live c now key)) [
    | inl taken ↦ rw taken v
    | inr free ↦
        rw free (logged-IsValid _ now _ key value ttl (put_item-IsValid c now key value ttl v))
  ]

  pub flush_all-IsValid : (c : Cache z) → IsValid (flush_all c).1
  unfolding flush_all lookup
  flush_all-IsValid c = record {
    heap = record { ordered = λ i p q. elim q [ ]; indexed = λ i q. elim q [ ] };
    tracked = λ k p e. cc;
    keyed = λ k p e. cc;
    mapped_used = λ k p e. cc;
    heaped_used = λ p (i, q, e). elim q [ ];
  }

  pub new-IsValid : IsValid (new {z = z})
  unfolding new lookup
  new-IsValid = record {
    heap = record { ordered = λ i p q. elim q [ ]; indexed = λ i q. elim q [ ] };
    tracked = λ k p e. cc;
    keyed = λ k p e. cc;
    mapped_used = λ k p e. cc;
    heaped_used = λ p (i, q, e). elim q [ ];
  }

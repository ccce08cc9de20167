-- ===== src/Cache/Batch/Release.antt =====
-- cache/cache.go: items of the map that leave the heap and go back to the pool, and items that
-- enter the map.
use ant_cache.Base.{
  ℕ, ◌≡◌, refl, ap, ◌∙◌, ◌≢◌, ◌⊎◌, inl, inr, Bool, true, false, some, ◌∷◌, arith, pos,
  if◌then◌else◌, Text, text_eq, Table, lookup, erase, ltb_ℤ, Bool-cases, lookup-erase, text_eq_iff,
  ◌<ℤ◌, ◌≤ℤ◌,
}
use ant_cache.Item.{Compression}
use ant_cache.Heap.{Heap, remove_item}
use ant_cache.Heap.Frame.{SameItems}
use ant_cache.Heap.Rearrange.{Holds}
use ant_cache.Heap.Valid.{IsHeap}
use ant_cache.Heap.Withdrawal.{remove_item-Without}
use ant_cache.Cache.{Cache}
use ant_cache.Cache.Batch.{member, recycle, put_cache_item}
use ant_cache.Cache.Batch.Pooled.{IsPooled, IsSpare}

-- `h'` holds what `h` holds, but for `p`, which need not have been there.
pub record Lacks {P : Type 0} (h : Heap P) (p : ℕ) (h' : Heap P) : Type 0 where
  pub valid : IsHeap h'
  pub keeps : (q : ℕ) → Holds h q → q ≢ p → Holds h' q
  pub brings : (q : ℕ) → Holds h' q → Holds h q × (q ≢ p)
  pub same : SameItems h'.mem h.mem

module _ {z : Compression} (c : Cache z) (w : IsPooled c) (key : Text) (p : ℕ)
    (found : lookup key c.items ≡ some p) where
  recycle_eq :
      (items : Table ℕ) (heaped : Bool) (h : Heap z.Packed)
      → (if heaped then remove_item c.heap p else some c.heap) ≡ some h
      → recycle (record c { items = items }) p heaped
        ≡ some (record c { items = items; heap = h; item_pool = p ∷ c.item_pool })
  unfolding recycle put_cache_item
  recycle_eq items heaped h e = rw (recycle, e) refl

  -- Recycling an item of the map succeeds, with whatever map, and takes it off the heap.
  pub recycle_total :
      (items : Table ℕ)
      → (h : Heap z.Packed) × (recycle
            (record c { items = items })
            p
            (ltb_ℤ (pos 0) (c.mem p).expiration)
          ≡ some (record c { items = items; heap = h; item_pool = p ∷ c.item_pool }))
        × Lacks c.heap p h
  recycle_total items = elim (Bool-cases (ltb_ℤ (pos 0) (c.mem p).expiration)) [
    | inl expiring ↦
        let held = w.valid.tracked key p found (ground arith) in
        let (h, e, r, same) = remove_item-Without c.heap p w.valid.heap held in
        (
          h,
          rw expiring (recycle_eq items true h e),
          record { valid = r.valid; keeps = r.keeps; brings = r.brings; same = same },
        )
    | inr lasting ↦ (
      c.heap,
      rw lasting (recycle_eq items false c.heap refl),
      record {
        valid = w.valid.heap;
        keeps = λ q x ne. x;
        brings = λ q x. (x, λ e. absurd (ground (arith, e, w.heap_timed q x)));
        same = λ q. refl;
      },
    )
  ]

  still :
      (k : Text) (q : ℕ)
      → lookup k (erase key c.items) ≡ some q
      → (lookup k c.items ≡ some q) × (q ≢ p)
  still k q e = elim (Bool-cases (text_eq key k)) [
    | inl gone ↦ absurd (ground (arith, lookup-erase key k c.items))
    | inr stays ↦
        let old : lookup k c.items ≡ some q = ground (arith, lookup-erase key k c.items) in
        (
          old,
          λ eq. ground (
            arith,
            text_eq_iff key k,
            w.valid.keyed k q old,
            w.valid.keyed key p found,
            ap (λ a. (c.mem a).key) eq,
          ),
        )
  ]

  -- A key goes from the map, and its item from the heap to the pool.
  pub release-IsPooled :
      (h : Heap z.Packed)
      → Lacks c.heap p h
      → IsPooled (record c { items = erase key c.items; heap = h; item_pool = p ∷ c.item_pool })
  unfolding member
  release-IsPooled h r =
      let time : (q : ℕ) → (h.mem q).expiration ≡ (c.mem q).expiration =
        λ q. ap (λ item. item.expiration) (r.same q) in
      record {
        valid = record {
          heap = r.valid;
          tracked = λ k q e alive.
              r.keeps q (w.valid.tracked k q (still k q e).0 (rw (time q) at alive))
                (still k q e).1;
          keyed = λ k q e. ap (λ item. item.key) (r.same q) ∙ w.valid.keyed k q (still k q e).0;
          mapped_used = λ k q e. w.valid.mapped_used k q (still k q e).0;
          heaped_used = λ q x. w.valid.heaped_used q (r.brings q x).0;
        };
        distinct = (w.pool_unmapped key p found, w.distinct);
        pool_used = λ q e. ground (arith, w.pool_used q, w.valid.mapped_used key p found);
        pool_unmapped = λ k q e. ground (arith, still k q e, w.pool_unmapped k q);
        pool_unheaped = λ q x. ground (arith, r.brings q x, w.pool_unheaped q);
        heap_timed = λ q x. rw (time q) (w.heap_timed q (r.brings q x).0);
        map_timed = λ k q e. rw (time q) (w.map_timed k q (still k q e).0);
      }

module _ {z : Compression} (c : Cache z) (w : IsPooled c) (key : Text) (p : ℕ)
    (s : IsSpare c p) where
  -- A key is given a spare item, which stands in the heap if it expires. `items` is a map that agrees
  -- with the old one elsewhere.
  pub enter-IsPooled :
      (items : Table ℕ)
      → ((k : Text) → lookup k items ≡ (if text_eq key k then some p else lookup k c.items))
      → (c.mem p).key ≡ key
      → pos 0 ≤ℤ (c.mem p).expiration
      → (pos 0 <ℤ (c.mem p).expiration → Holds c.heap p)
      → IsPooled (record c { items = items })
  enter-IsPooled items agrees named timed heaped =
      let entry : (k : Text) (q : ℕ)
          → lookup k items ≡ some q
          → ((key ≡ k) × (q ≡ p)) ⊎ (lookup k c.items ≡ some q) =
        λ k q e. ground (arith, agrees k, text_eq_iff key k) in
      record {
        valid = record {
          heap = w.valid.heap;
          tracked = λ k q e. elim (entry k q e) [
            | inl (_, new) ↦ rw new heaped
            | inr old ↦ w.valid.tracked k q old
          ];
          keyed = λ k q e. elim (entry k q e) [
            | inl (eq, new) ↦ rw new (named ∙ eq)
            | inr old ↦ w.valid.keyed k q old
          ];
          mapped_used = λ k q e. elim (entry k q e) [
            | inl (_, new) ↦ rw new s.used
            | inr old ↦ w.valid.mapped_used k q old
          ];
          heaped_used = w.valid.heaped_used;
        };
        distinct = w.distinct;
        pool_used = w.pool_used;
        pool_unmapped = λ k q e. elim (entry k q e) [
          | inl (_, new) ↦ rw new s.unpooled
          | inr old ↦ w.pool_unmapped k q old
        ];
        pool_unheaped = w.pool_unheaped;
        heap_timed = w.heap_timed;
        map_timed = λ k q e. elim (entry k q e) [
          | inl (_, new) ↦ rw new timed
          | inr old ↦ w.map_timed k q old
        ];
      }

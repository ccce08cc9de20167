-- ===== src/Cache/Batch/Recycling.antt =====
-- cache/cache.go: taking items out of the pool, and giving the items of the map back to it.
use ant_cache.Base.{
  ℕ, ◌+◌, ◌≡◌, refl, ◌≢◌, inl, inr, true, false, some, arith, Text, lookup, Bool-cases,
}
use ant_cache.Item.{Compression, update}
use ant_cache.Heap.Rearrange.{Holds}
use ant_cache.Cache.{Cache, alloc}
use ant_cache.Cache.Batch.{member, without, write_item, get_cache_item, blank}
use ant_cache.Cache.Batch.Pooled.{
  IsPooled, IsSpare, without-IsDistinct, without-member, member-without, write-IsPooled,
  IsSpare-heap,
}

module _ {z : Compression} (c : Cache z) (w : IsPooled c) where
  -- What GetCacheItem gives: an item that nothing uses, in a cache with the same map and heap.
  pub record Gets (p : ℕ) (c' : Cache z) : Type 0 where
    pub pooled : IsPooled c'
    pub spare : IsSpare c' p
    pub unheaped : ¬ Holds c'.heap p
    pub items : c'.items ≡ c.items
    pub kept : (k : Text) (q : ℕ) → lookup k c.items ≡ some q → c'.mem q ≡ c.mem q

  fresh-Gets : Gets c.next (alloc c blank)
  unfolding alloc
  fresh-Gets =
      let grown : Cache z = record c { next = c.next + 1 } in
      let grown-IsPooled : IsPooled grown = record {
        valid = record {
          heap = w.valid.heap;
          tracked = w.valid.tracked;
          keyed = w.valid.keyed;
          mapped_used = λ k q e. omega (arith, w.valid.mapped_used k q e);
          heaped_used = λ q x. omega (arith, w.valid.heaped_used q x);
        };
        distinct = w.distinct;
        pool_used = λ q e. omega (arith, w.pool_used q e);
        pool_unmapped = w.pool_unmapped;
        pool_unheaped = w.pool_unheaped;
        heap_timed = w.heap_timed;
        map_timed = w.map_timed;
      } in
      let unheaped : ¬ Holds c.heap c.next =
        λ x. absurd (omega (arith, w.valid.heaped_used c.next x)) in
      let unmapped : (k : Text) (q : ℕ) → lookup k c.items ≡ some q → q ≢ c.next =
        λ k q e same. absurd (omega (arith, w.valid.mapped_used k q e)) in
      let spare : IsSpare grown c.next = record {
        used = omega arith;
        unmapped = unmapped;
        unpooled = elim (Bool-cases (member c.next c.item_pool)) [
          | inl pooled ↦ absurd (omega (arith, w.pool_used c.next pooled))
          | inr free ↦ free
        ];
      } in
      record {
        pooled =
            unfold write_item in write-IsPooled grown grown-IsPooled c.next blank spare unheaped;
        spare = IsSpare-heap grown c.next (record c.heap { mem = update c.mem c.next blank }) spare;
        unheaped = unheaped;
        items = refl;
        kept = λ k q e. ground (arith, unmapped k q e);
      }

  -- The item of the pool that was chosen.
  taken-Gets :
      (p : ℕ)
      → member p c.item_pool ≡ true
      → Gets p (write_item (record c { item_pool = without p c.item_pool }) p blank)
  unfolding write_item
  taken-Gets p pooled =
      let left : Cache z = record c { item_pool = without p c.item_pool } in
      let less : (q : ℕ) → member q c.item_pool ≡ false → member q left.item_pool ≡ false =
        λ q h. without-member p q c.item_pool h in
      let left-IsPooled : IsPooled left = record {
        valid = record {
          heap = w.valid.heap;
          tracked = w.valid.tracked;
          keyed = w.valid.keyed;
          mapped_used = w.valid.mapped_used;
          heaped_used = w.valid.heaped_used;
        };
        distinct = without-IsDistinct p c.item_pool w.distinct;
        pool_used = λ q e. w.pool_used q (member-without p q c.item_pool w.distinct e).0;
        pool_unmapped = λ k q e. less q (w.pool_unmapped k q e);
        pool_unheaped = λ q x. less q (w.pool_unheaped q x);
        heap_timed = w.heap_timed;
        map_timed = w.map_timed;
      } in
      let unheaped : ¬ Holds c.heap p = λ x. absurd (ground (arith, pooled, w.pool_unheaped p x)) in
      let unmapped : (k : Text) (q : ℕ) → lookup k c.items ≡ some q → q ≢ p =
        λ k q e same. absurd (ground (arith, same, pooled, w.pool_unmapped k q e)) in
      let spare : IsSpare left p = record {
        used = w.pool_used p pooled;
        unmapped = unmapped;
        unpooled = elim (Bool-cases (member p left.item_pool)) [
          | inl still ↦ absurd ((member-without p p c.item_pool w.distinct still).1 refl)
          | inr gone ↦ gone
        ];
      } in
      record {
        pooled = unfold write_item in write-IsPooled left left-IsPooled p blank spare unheaped;
        spare = IsSpare-heap left p (record c.heap { mem = update c.mem p blank }) spare;
        unheaped = unheaped;
        items = refl;
        kept = λ k q e. ground (arith, unmapped k q e);
      }

  pub get_cache_item-Gets : (pick : ℕ) → Gets (get_cache_item c pick).0 (get_cache_item c pick).1
  unfolding get_cache_item
  get_cache_item-Gets pick = elim (Bool-cases (member pick c.item_pool)) [
    | inl pooled ↦ rw pooled (taken-Gets pick pooled)
    | inr fresh ↦ rw fresh fresh-Gets
  ]

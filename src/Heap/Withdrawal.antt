-- ===== src/Heap/Withdrawal.antt =====
-- cache/cache.go: the method Remove of the expiration heap, which finds the item by its index.
use ant_cache.Base.{ℕ, ◌<◌, ◌≡◌, refl, true, false, some, arith, pos, length, leb, ltb}
use ant_cache.Heap.{Heap, len, remove, removed, remove_within, remove_item}
use ant_cache.Heap.Frame.{SameItems, removed-SameItems}
use ant_cache.Heap.Rearrange.{Holds}
use ant_cache.Heap.Valid.{IsHeap}
use ant_cache.Heap.Removal.{Without, removed-Without}

module _ {P : Type 0} (h : Heap P) (p : ℕ) (v : IsHeap h) where
  remove_item_at :
      (i : ℕ)
      → (h.mem p).index ≡ pos i
      → i < length h.slice
      → remove_item h p ≡ some (removed h i).1
  unfolding remove_item remove_within remove len
  remove_item_at i e hi =
      let inside : ltb i (length h.slice) ≡ true = ground arith in
      let present : leb (length h.slice) i ≡ false = ground arith in rw (e, inside, present) refl

  -- On a well-formed heap that holds the item, the method Remove leaves a well-formed heap of exactly
  -- the other items.
  pub remove_item-Without :
      Holds h p
      → (h' : Heap P) × (remove_item h p ≡ some h') × Without h p h' × SameItems h'.mem h.mem
  remove_item-Without (i, hi, there) =
      let at_index : (h.mem p).index ≡ pos i = rw there at (v.indexed i hi) in
      (
        (removed h i).1,
        remove_item_at i at_index hi,
        rw there at (removed-Without h i v hi).1,
        removed-SameItems h i,
      )

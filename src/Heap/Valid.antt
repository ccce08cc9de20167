-- ===== src/Heap/Valid.antt =====
-- cache/cache.go: the well-formedness of the expiration heap.
use ant_cache.Base.{ℕ, zero, suc, ◌<◌, ◌≤ℤ◌, arith, length}
use ant_cache.Heap.{Heap, expiration_at}
use ant_cache.Heap.Order.{parent, IsOrdered}
use ant_cache.Heap.Rearrange.{IsIndexed}

module _ {P : Type 0} where
  -- The expiration heap as the methods of Cache leave it.
  pub record IsHeap (h : Heap P) : Type 0 where
    pub ordered : IsOrdered (length h.slice) h
    pub indexed : IsIndexed h

  root_least_below :
      (k n : ℕ) (h : Heap P) (i : ℕ)
      → IsOrdered n h
      → i < k
      → i < n
      → expiration_at h 0 ≤ℤ expiration_at h i
  root_least_below zero n h i o f p = absurd (omega arith)
  root_least_below (suc k) n h i o f p = ground (arith, o i, root_least_below k n h (parent i) o)

  -- In a well-formed heap no item expires before the one at the root.
  pub root_least :
      (h : Heap P) (i : ℕ) → IsHeap h → i < length h.slice → expiration_at h 0 ≤ℤ expiration_at h i
  root_least h i v p = root_least_below (suc i) (length h.slice) h i v.ordered (omega arith) p

-- ===== src/Heap.antt =====
-- cache/cache.go: ExpirationHeap, the slice of items with its five methods, and what
-- the standard library's container/heap does with them (Push, Pop, Remove, up, down).
-- The items lie in the memory `mem`; an item of the slice has its position in `index`.
pub mod Frame
pub mod Order
pub mod Sinking
pub mod Rearrange
pub mod Valid
pub mod Insertion
pub mod Removal
pub mod Withdrawal
use ant_cache.Base.{
  ℕ, zero, suc, ◌+◌, ◌-◌, ◌*◌, ◌/◌, ℤ, pos, negsuc, Bool, not, ◌&&◌, ◌||◌, List, [], ◌∷◌, ◌++◌,
  Option, none, some, length, get_or, set, take, ◌==◌, ltb, leb, ltb_ℤ, if◌then◌else◌,
}
use ant_cache.Item.{Memory, set_index}

pub record Heap (P : Type 0) : Type 0 where
  pub mem : Memory P
  pub slice : List ℕ

module _ {P : Type 0} where
  -- The pointer at `h[i]`, for an `i` in range.
  abbrev pub at : Heap P → ℕ → ℕ
  at h i = get_or h.slice i 0

  abbrev pub expiration_at : Heap P → ℕ → ℤ
  expiration_at h i = (h.mem (at h i)).expiration

  unfoldable pub len : Heap P → ℕ
  len h = length h.slice

  unfoldable pub less : Heap P → ℕ → ℕ → Bool
  less h i j = ltb_ℤ (expiration_at h i) (expiration_at h j)

  unfoldable pub swap : Heap P → ℕ → ℕ → Heap P
  swap h i j = record {
    mem = set_index (set_index h.mem (at h j) (pos i)) (at h i) (pos j);
    slice = set (set h.slice i (at h j)) j (at h i);
  }

  -- The method Push: append the item.
  unfoldable pub append_item : Heap P → ℕ → Heap P
  append_item h p = record {
    mem = set_index h.mem p (pos (length h.slice));
    slice = h.slice ++ p ∷ [];
  }

  -- The method Pop: cut the last item off, its index set to -1.
  unfoldable pub cut_item : Heap P → ℕ × Heap P
  cut_item h =
      let n = length h.slice in
      let item = at h (n - 1) in
      (item, record { mem = set_index h.mem item (negsuc 0); slice = take (n - 1) h.slice })

  -- The loops of container/heap. The position falls in `up` and rises in `down`, so the fuel that
  -- `up` and `down` give is enough.
  unfoldable pub up_loop : ℕ → Heap P → ℕ → Heap P
  up_loop zero h j = h
  up_loop (suc k) h j =
      let i = (j - 1) / 2 in
      let rise = up_loop k (swap h i j) i in if i == j || not (less h j i) then h else rise

  unfoldable pub up : Heap P → ℕ → Heap P
  up h j = up_loop (j + 1) h j

  -- The child that `down` compares with: the right one if it is there and earlier.
  abbrev pub first_child : Heap P → ℕ → ℕ → ℕ
  first_child h i n =
      let j1 = 2 * i + 1 in if ltb (j1 + 1) n && less h (j1 + 1) j1 then j1 + 1 else j1

  unfoldable pub down_loop : ℕ → Heap P → ℕ → ℕ → Heap P × ℕ
  down_loop zero h i n = (h, i)
  down_loop (suc k) h i n =
      let j = first_child h i n in
      let sink = down_loop k (swap h i j) j n in
      if leb n (2 * i + 1) || not (less h j i) then (h, i) else sink

  -- The result says whether the item moved.
  unfoldable pub down : Heap P → ℕ → ℕ → Heap P × Bool
  down h i0 n = let (h', i) = down_loop (suc n) h i0 n in (h', ltb i0 i)

  unfoldable pub push : Heap P → ℕ → Heap P
  push h p = let h' = append_item h p in up h' (len h' - 1)

  unfoldable pub popped : Heap P → ℕ × Heap P
  popped h = let n = len h - 1 in cut_item (down (swap h 0 n) 0 n).0

  -- `none` is the run-time panic of an index out of range.
  unfoldable pub pop : Heap P → Option (ℕ × Heap P)
  pop h = if len h == 0 then none else some (popped h)

  -- heap.Remove before its final Pop: the item at `i` trades places with the last one, which then
  -- sinks or, if it does not, rises.
  unfoldable pub detach : Heap P → ℕ → Heap P
  detach h i =
      let n = len h - 1 in
      let (h', moved) = down (swap h i n) i n in if n == i then h else if moved then h' else up h' i

  unfoldable pub removed : Heap P → ℕ → ℕ × Heap P
  removed h i = cut_item (detach h i)

  unfoldable pub remove : Heap P → ℕ → Option (ℕ × Heap P)
  remove h i = if leb (len h) i then none else some (removed h i)

  -- `heap.Remove(h, item.index)` at a signed index.
  unfoldable pub remove_at : Heap P → ℤ → Option (ℕ × Heap P)
  remove_at h (pos i) = remove h i
  remove_at h (negsuc _) = none

  abbrev pub heap_of : Option (ℕ × Heap P) → Option (Heap P)
  heap_of none = none
  heap_of (some (_, h)) = some h

  -- `if i >= 0 && i < len(*h) { heap.Remove(h, i) }`
  remove_within : Heap P → ℤ → Option (Heap P)
  remove_within h (pos i) = if ltb i (len h) then heap_of (remove h i) else some h
  remove_within h (negsuc _) = some h

  -- The method Remove: nothing is done for an index out of range.
  unfoldable pub remove_item : Heap P → ℕ → Option (Heap P)
  unfolding remove_within
  remove_item h p = remove_within h (h.mem p).index

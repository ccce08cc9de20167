-- ===== src/Cache/Batch/Pooled.antt =====
-- cache/cache.go: the well-formedness of a Cache whose items go back to the pool.
use ant_cache.Base.{
  ℕ, ◌<◌, ◌≡◌, ap, ◌∙◌, ◌≢◌, inl, inr, true, false, some, List, [], ◌∷◌, arith, pos, Text, lookup,
  ◌==◌, Bool-cases, ◌<ℤ◌, ◌≤ℤ◌,
}
use ant_cache.Item.{CacheItem, Compression, update}
use ant_cache.Heap.{Heap, push}
use ant_cache.Heap.Frame.{push-SameItems}
use ant_cache.Heap.Rearrange.{Holds}
use ant_cache.Heap.Insertion.{With, push-With}
use ant_cache.Cache.{Cache}
use ant_cache.Cache.Valid.{IsValid, IsHeap-update}
use ant_cache.Cache.Batch.{member, without, write_item}

-- No item twice.
abbrev pub IsDistinct : List ℕ → Type 0
IsDistinct [] = Unit
IsDistinct (p ∷ ps) = (member p ps ≡ false) × IsDistinct ps

pub without-member : (p q : ℕ) (ps : List ℕ) → member q ps ≡ false → member q (without p ps) ≡ false
unfolding member without
without-member p q [] h = h
without-member p q (r ∷ rs) h = ground (arith, without-member p q rs)

pub without-IsDistinct : (p : ℕ) (ps : List ℕ) → IsDistinct ps → IsDistinct (without p ps)
unfolding without
without-IsDistinct p [] d = tt
without-IsDistinct p (q ∷ qs) (new, d) = elim (Bool-cases (q == p)) [
  | inl same ↦ rw same d
  | inr other ↦ rw other (without-member p q qs new, without-IsDistinct p qs d)
]

pub member-without :
    (p q : ℕ) (ps : List ℕ)
    → IsDistinct ps
    → member q (without p ps) ≡ true
    → (member q ps ≡ true) × (q ≢ p)
unfolding member without
member-without p q [] d h = absurd (cc h)
member-without p q (r ∷ rs) (new, d) h = elim (Bool-cases (r == p)) [
  | inl same ↦ ground (arith, same, new)
  | inr other ↦ ground (arith, other, member-without p q rs d)
]

-- A pooled item is in use by nothing else, and once in the pool; an item that stands in the heap
-- expires, and so does an item of the map whose expiration is not 0.
pub record IsPooled {z : Compression} (c : Cache z) : Type 0 where
  pub valid : IsValid c
  pub distinct : IsDistinct c.item_pool
  pub pool_used : (p : ℕ) → member p c.item_pool ≡ true → p < c.next
  pub pool_unmapped : (k : Text) (p : ℕ) → lookup k c.items ≡ some p → member p c.item_pool ≡ false
  pub pool_unheaped : (p : ℕ) → Holds c.heap p → member p c.item_pool ≡ false
  pub heap_timed : (p : ℕ) → Holds c.heap p → pos 0 <ℤ (c.mem p).expiration
  pub map_timed : (k : Text) (p : ℕ) → lookup k c.items ≡ some p → pos 0 ≤ℤ (c.mem p).expiration

-- `p` is in nobody's hands: it is used, but neither in the map nor in the pool.
pub record IsSpare {z : Compression} (c : Cache z) (p : ℕ) : Type 0 where
  pub used : p < c.next
  pub unmapped : (k : Text) (q : ℕ) → lookup k c.items ≡ some q → q ≢ p
  pub unpooled : member p c.item_pool ≡ false

module _ {z : Compression} (c : Cache z) (w : IsPooled c) where
  pub write-IsPooled :
      (p : ℕ) (item : CacheItem z.Packed)
      → IsSpare c p
      → ¬ Holds c.heap p
      → IsPooled (write_item c p item)
  unfolding write_item
  write-IsPooled p item s unheaped =
      let elsewhere : (q : ℕ) → q ≢ p → update c.mem p item q ≡ c.mem q = λ q ne. ground arith in
      let mapped : (k : Text) (q : ℕ)
          → lookup k c.items ≡ some q
          → update c.mem p item q ≡ c.mem q =
        λ k q e. elsewhere q (s.unmapped k q e) in
      let heaped : (q : ℕ) → Holds c.heap q → update c.mem p item q ≡ c.mem q =
        λ q x. elsewhere q (λ e. unheaped (rw e at x)) in
      record {
        valid = record {
          heap = IsHeap-update c.heap p item w.valid.heap unheaped;
          tracked = λ k q e alive. w.valid.tracked k q e (rw (mapped k q e) at alive);
          keyed = λ k q e. rw (mapped k q e) (w.valid.keyed k q e);
          mapped_used = w.valid.mapped_used;
          heaped_used = w.valid.heaped_used;
        };
        distinct = w.distinct;
        pool_used = w.pool_used;
        pool_unmapped = w.pool_unmapped;
        pool_unheaped = w.pool_unheaped;
        heap_timed = λ q x. rw (heaped q x) (w.heap_timed q x);
        map_timed = λ k q e. rw (mapped k q e) (w.map_timed k q e);
      }

  pub push-IsPooled :
      (p : ℕ)
      → IsSpare c p
      → ¬ Holds c.heap p
      → pos 0 <ℤ (c.mem p).expiration
      → IsPooled (record c { heap = push c.heap p }) × Holds (push c.heap p) p
  push-IsPooled p s unheaped timed =
      let r : With c.heap p (push c.heap p) = push-With c.heap p w.valid.heap unheaped in
      let same = push-SameItems c.heap p in
      let time : (q : ℕ) → ((push c.heap p).mem q).expiration ≡ (c.mem q).expiration =
        λ q. ap (λ item. item.expiration) (same q) in
      (
        record {
          valid = record {
            heap = r.valid;
            tracked = λ k q e alive. r.keeps q (w.valid.tracked k q e (rw (time q) at alive));
            keyed = λ k q e. ap (λ item. item.key) (same q) ∙ w.valid.keyed k q e;
            mapped_used = w.valid.mapped_used;
            heaped_used = λ q x. elim (r.brings q x) [
              | inl old ↦ w.valid.heaped_used q old
              | inr new ↦ rw new s.used
            ];
          };
          distinct = w.distinct;
          pool_used = w.pool_used;
          pool_unmapped = w.pool_unmapped;
          pool_unheaped = λ q x. elim (r.brings q x) [
            | inl old ↦ w.pool_unheaped q old
            | inr new ↦ rw new s.unpooled
          ];
          heap_timed = λ q x.
              rw (time q)
                (elim (r.brings q x) [ inl old ↦ w.heap_timed q old | inr new ↦ rw new timed ]);
          map_timed = λ k q e. rw (time q) (w.map_timed k q e);
        },
        r.has,
      )

-- A write to items and changes of the heap leave the others' hands as they are.
pub IsSpare-heap :
    {z : Compression} (c : Cache z) (p : ℕ) (h : Heap z.Packed)
    → IsSpare c p
    → IsSpare (record c { heap = h }) p
IsSpare-heap c p h s = record { used = s.used; unmapped = s.unmapped; unpooled = s.unpooled }

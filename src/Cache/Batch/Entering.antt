-- ===== src/Cache/Batch/Entering.antt =====
-- cache/cache.go: OptimizedSet, and the SET of BatchExecute, from the built item on.
use ant_cache.Base.{
  ℕ, ◌≡◌, refl, sym, ap, ◌∙◌, ◌≢◌, inl, inr, Option, none, some, List, ◌∷◌, arith, ℤ, pos, Text,
  text_eq, lookup, insert, erase, Bool-cases, Option-cases, lookup-insert, lookup-erase, ◌≤ℤ◌,
}
use ant_cache.Item.{Value, CacheItem, Compression}
use ant_cache.Heap.{Heap}
use ant_cache.Heap.Frame.{SameItems}
use ant_cache.Cache.{Cache, expiration_of}
use ant_cache.Cache.Batch.{member, get_cache_item, build_item, pooled_item, recycle_old, set_pooled}
use ant_cache.Cache.Batch.Pooled.{IsPooled, IsSpare}
use ant_cache.Cache.Batch.Recycling.{get_cache_item-Gets}
use ant_cache.Cache.Batch.Release.{recycle_total, release-IsPooled, enter-IsPooled}
use ant_cache.Cache.Batch.View.{view, put, seen, seen_same}
use ant_cache.Cache.Batch.Setting.{IsTimely, Built, build_item-Built, expiration_of_nonneg}

module _ {z : Compression} (c : Cache z) (p : ℕ) (item : CacheItem z.Packed) (c2 : Cache z)
    (b : Built c p item c2) (timed : pos 0 ≤ℤ item.expiration) where
  time : (c2.mem p).expiration ≡ item.expiration
  time = ap (λ i. i.expiration) b.new

  view_entered_at :
      (h : Heap z.Packed) (k : Text)
      → SameItems h.mem c2.mem
      → seen h.mem (lookup k (insert item.key p c2.items))
        ≡ put (view c) item.key (some (item.value, item.expiration)) k
  view_entered_at h k same =
      ap (seen h.mem) (lookup-insert item.key k p c2.items)
      ∙ elim (Bool-cases (text_eq item.key k)) [
        | inl eq ↦ rw eq (ap (λ i. some (i.value, i.expiration)) (same p ∙ b.new))
        | inr other ↦ rw other (
            ap (λ m. seen h.mem (lookup k m)) b.items
            ∙ seen_same h.mem c.mem (lookup k c.items) (λ q e. same q ∙ b.kept k q e))
      ]

  -- What the key and the others have, when the key is given the built item.
  view_entered :
      (h : Heap z.Packed) (pool : List ℕ)
      → SameItems h.mem c2.mem
      → view (record c2 { heap = h; item_pool = pool; items = insert item.key p c2.items })
        ≡ put (view c) item.key (some (item.value, item.expiration))
  view_entered h pool same i k = view_entered_at h k same i

  abbrev entered : Option (Cache z) → Option (Cache z)
  entered none = none
  entered (some c3) = some (record c3 { items = insert item.key p c3.items })

  absent_entered :
      lookup item.key c2.items ≡ none
      → (c' : Cache z) × (entered (recycle_old c2 (lookup item.key c2.items)) ≡ some c')
        × IsPooled c'
        × (view c' ≡ put (view c) item.key (some (item.value, item.expiration)))
  unfolding recycle_old
  absent_entered absent = (
    record c2 { items = insert item.key p c2.items },
    rw absent refl,
    enter-IsPooled c2 b.pooled item.key p b.spare (insert item.key p c2.items)
        (λ k. lookup-insert item.key k p c2.items) (ap (λ i. i.key) b.new) (rw time timed) b.heaped,
    view_entered c2.heap c2.item_pool (λ q. refl),
  )

  present_entered :
      (old : ℕ)
      → lookup item.key c2.items ≡ some old
      → (c' : Cache z) × (entered (recycle_old c2 (lookup item.key c2.items)) ≡ some c')
        × IsPooled c'
        × (view c' ≡ put (view c) item.key (some (item.value, item.expiration)))
  unfolding recycle_old member
  present_entered old found =
      let (h, e, l) = recycle_total c2 b.pooled item.key old found c2.items in
      let other : old ≢ p = b.spare.unmapped item.key old found in
      let key = item.key in
      let released : Cache z = record c2 {
        items = erase key c2.items;
        heap = h;
        item_pool = old ∷ c2.item_pool;
      } in
      let spare : IsSpare released p = record {
        used = b.spare.used;
        unmapped = λ k q r. b.spare.unmapped k q (ground (arith, lookup-erase key k c2.items));
        unpooled = ground (arith, b.spare.unpooled);
      } in
      let expiration : (h.mem p).expiration ≡ item.expiration =
        ap (λ i. i.expiration) (l.same p) ∙ time in
      (
        record released { items = insert key p c2.items },
        rw (found, e) refl,
        enter-IsPooled released (release-IsPooled c2 b.pooled key old found h l) key p spare
            (insert key p c2.items)
            (λ k. ground (arith, lookup-insert key k p c2.items, lookup-erase key k c2.items))
            (ap (λ i. i.key) (l.same p ∙ b.new)) (rw expiration timed)
            (λ alive.
              l.keeps p (b.heaped (rw (← ap (λ i. i.expiration) (l.same p)) alive))
                (λ eq. other (sym eq))),
        view_entered h (old ∷ c2.item_pool) l.same,
      )

-- OptimizedSet, whatever item the pool hands out, returns, and gives the key the value and its
-- expiration, and no other key anything else.
pub set_pooled_total :
    {z : Compression} (c : Cache z) (pick : ℕ) (now : ℤ) (key : Text) (value : Value z.Packed)
    (ttl : ℤ)
    → IsPooled c
    → IsTimely now ttl
    → (c' : Cache z) × (set_pooled c pick now key value ttl ≡ some c')
      × IsPooled c'
      × (view c' ≡ put (view c) key (some (value, expiration_of now ttl)))
unfolding set_pooled
set_pooled_total c pick now key value ttl w fits =
    let (p, c1) = get_cache_item c pick in
    let b = build_item-Built c w p c1 now key value ttl fits (get_cache_item-Gets c w pick) in
    let c2 = build_item c1 p now key value ttl in
    let timed = expiration_of_nonneg now ttl fits in
    elim (Option-cases (lookup key c2.items)) [
      | inl absent ↦ absent_entered c p (pooled_item now key value ttl) c2 b timed absent
      | inr (old, found) ↦ present_entered c p (pooled_item now key value ttl) c2 b timed old found
    ]

-- ===== src/Cache/Items.antt =====
-- cache/cache.go: adding an item to the cache, which Set, SetNX and the loaders share.
use ant_cache.Base.{
  ℕ, ◌+◌, ◌<◌, ◌≡◌, ◌≢◌, refl, ap, ◌∙◌, inl, inr, Bool-cases, Option-cases, arith, ℤ, Text, some,
  lookup, insert, lookup-insert, text_eq, if◌then◌else◌, Bool,
}
use ant_cache.Item.{CacheItem, Compression, strip}
use ant_cache.Heap.Frame.{push-SameItems}
use ant_cache.Cache.{Cache, alloc, add_item, read, reading, get}

module _ {z : Compression} (c : Cache z) (key : Text) (item : CacheItem z.Packed)
    (expiring : Bool) where
  -- The address that a new item is written to, and what the operation does elsewhere.
  pub add_item-new : strip ((add_item c key item expiring).mem c.next) ≡ strip item
  unfolding add_item alloc
  add_item-new = elim (Bool-cases expiring) [
    | inl e ↦ rw e (push-SameItems (alloc c item).heap c.next c.next ∙ ground arith)
    | inr e ↦ rw e (ground arith)
  ]

  pub add_item-old :
      (q : ℕ) → q ≢ c.next → strip ((add_item c key item expiring).mem q) ≡ strip (c.mem q)
  unfolding add_item alloc
  add_item-old q h = elim (Bool-cases expiring) [
    | inl e ↦ rw e (push-SameItems (alloc c item).heap c.next q ∙ ground arith)
    | inr e ↦ rw e (ground arith)
  ]

  pub add_item-items : (add_item c key item expiring).items ≡ insert key c.next c.items
  unfolding add_item alloc
  add_item-items = ground arith

  pub add_item-next : (add_item c key item expiring).next ≡ c.next + 1
  unfolding add_item alloc
  add_item-next = ground arith

  pub get-add_item :
      (t : ℤ) (k : Text)
      → ((k : Text) (p : ℕ) → lookup k c.items ≡ some p → p < c.next)
      → get (add_item c key item expiring) t k
        ≡ (if text_eq key k then reading z t item else get c t k)
  unfolding get
  get-add_item t k used =
      let c' = add_item c key item expiring in
      ap (read c' t) (ap (lookup k) add_item-items ∙ lookup-insert key k c.next c.items)
      ∙ elim (Bool-cases (text_eq key k)) [
        | inl same ↦ rw same (ap (reading z t) add_item-new)
        | inr other ↦ rw other (elim (Option-cases (lookup k c.items)) [
          | inl absent ↦ rw absent refl
          | inr (p, found) ↦
              let u = used k p found in
              rw found (ap (reading z t) (add_item-old p (λ e. absurd (omega arith))))
        ])
      ]

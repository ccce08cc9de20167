-- ===== src/Cache/Batch.antt =====
-- cache/cache.go: the pool of items with GetCacheItem and PutCacheItem, BatchExecute and
-- OptimizedSet. sync.Pool hands out any of its items or a new one: `pick` is the item it chooses,
-- and one that is not in the pool stands for a new item.
pub mod Pooled
pub mod Recycling
pub mod Release
pub mod View
pub mod Setting
pub mod Entering
pub mod Refinement
use ant_cache.Base.{
  ℕ, ◌+◌, ℤ, pos, negsuc, Bool, true, false, ◌||◌, List, [], ◌∷◌, Option, none, some, Text, codes,
  text_eq, lookup, insert, erase, ◌==◌, ltb_ℤ, if◌then◌else◌,
}
use ant_cache.Item.{Value, nil, CacheItem, Compression, update}
use ant_cache.Heap.{Heap, push, remove_item}
use ant_cache.Cache.{Cache, alloc, expiration_of}

pub record BatchOperation (P : Type 0) : Type 0 where
  pub type : Text
  pub key : Text
  pub value : Value P
  pub ttl : ℤ

pub record BatchResult (P : Type 0) : Type 0 where
  pub success : Bool
  pub value : Value P
  pub error : Text

abbrev pub succeeded : {P : Type 0} → Value P → BatchResult P
succeeded value = record { success = true; value = value; error = [] }

abbrev pub failed : {P : Type 0} → Text → BatchResult P
failed error = record { success = false; value = nil; error = error }

-- The contents of sync.Pool as a list: whether an item is in it, and the list without it.
unfoldable pub member : ℕ → List ℕ → Bool
member p [] = false
member p (q ∷ qs) = q == p || member p qs

unfoldable pub without : ℕ → List ℕ → List ℕ
without p [] = []
without p (q ∷ qs) = let rest = without p qs in if q == p then qs else q ∷ rest

-- A CacheItem whose fields are reset.
abbrev pub blank : {P : Type 0} → CacheItem P
blank = record { value = nil; expiration = pos 0; index = pos 0; key = []; type = [] }

abbrev pub pooled_item : {P : Type 0} → ℤ → Text → Value P → ℤ → CacheItem P
pooled_item now key value ttl = record {
  value = value;
  expiration = expiration_of now ttl;
  index = pos 0;
  key = key;
  type = codes "string";
}

-- `e == 0`
abbrev pub is_zero : ℤ → Bool
is_zero (pos n) = n == 0
is_zero (negsuc n) = false

module _ {z : Compression} where
  -- `*p = item`
  unfoldable pub write_item : Cache z → ℕ → CacheItem z.Packed → Cache z
  write_item c p item = record c { heap = record c.heap { mem = update c.mem p item } }

  unfoldable pub get_cache_item : Cache z → ℕ → ℕ × Cache z
  get_cache_item c pick =
      if member pick c.item_pool
      then (pick, write_item (record c { item_pool = without pick c.item_pool }) pick blank)
      else (c.next, alloc c blank)

  unfoldable pub put_cache_item : Cache z → ℕ → Cache z
  put_cache_item c p = record c { item_pool = p ∷ c.item_pool }

  -- `c.expirationHeap.Remove(item)` under a condition, and then PutCacheItem.
  unfoldable pub recycle : Cache z → ℕ → Bool → Option (Cache z)
  recycle c p heaped = elim (if heaped then remove_item c.heap p else some c.heap) [
    | some h ↦ some (put_cache_item (record c { heap = h }) p)
    | none ↦ none
  ]

  unfoldable pub recycle_old : Cache z → Option ℕ → Option (Cache z)
  recycle_old c none = some c
  recycle_old c (some p) = recycle c p (ltb_ℤ (pos 0) (c.mem p).expiration)

  -- The new item with its fields, pushed if it expires.
  unfoldable pub build_item : Cache z → ℕ → ℤ → Text → Value z.Packed → ℤ → Cache z
  build_item c p now key value ttl =
      let c' = write_item c p (pooled_item now key value ttl) in
      if ltb_ℤ (pos 0) ttl then record c' { heap = push c'.heap p } else c'

  -- The text that OptimizedSet and the SET of BatchExecute share.
  unfoldable pub set_pooled : Cache z → ℕ → ℤ → Text → Value z.Packed → ℤ → Option (Cache z)
  set_pooled c pick now key value ttl =
      let (p, c1) = get_cache_item c pick in
      let c2 = build_item c1 p now key value ttl in
      elim (recycle_old c2 (lookup key c2.items)) [
        | some c3 ↦ some (record c3 { items = insert key p c3.items })
        | none ↦ none
      ]

  unfoldable pub optimized_set : Cache z → ℕ → ℤ → Text → Value z.Packed → ℤ → Option (Cache z)
  unfolding set_pooled
  optimized_set c pick now key value ttl = set_pooled c pick now key value ttl

  unfoldable pub batch_set :
      Cache z → ℕ → ℤ → BatchOperation z.Packed → Option (BatchResult z.Packed × Cache z)
  batch_set c pick now op = elim (set_pooled c pick now op.key op.value op.ttl) [
    | some c' ↦ some (succeeded nil, c')
    | none ↦ none
  ]

  -- `delete(c.items, op.Key)` and the end of the item.
  unfoldable pub batch_drop :
      Cache z → ℕ → Text → Bool → BatchResult z.Packed → Option (BatchResult z.Packed × Cache z)
  batch_drop c p key heaped result =
      elim (recycle (record c { items = erase key c.items }) p heaped) [
        | some c' ↦ some (result, c')
        | none ↦ none
      ]

  unfoldable pub batch_get_found :
      Cache z → ℤ → Text → Option ℕ → Option (BatchResult z.Packed × Cache z)
  batch_get_found c now key none = some (failed (codes "key not found"), c)
  batch_get_found c now key (some p) =
      let e = (c.mem p).expiration in
      if is_zero e || ltb_ℤ now e
      then some (succeeded (c.mem p).value, c)
      else batch_drop c p key true (failed (codes "key not found"))

  unfoldable pub batch_del_found :
      Cache z → Text → Option ℕ → Option (BatchResult z.Packed × Cache z)
  batch_del_found c key none = some (failed (codes "key not found"), c)
  batch_del_found c key (some p) =
      batch_drop c p key (ltb_ℤ (pos 0) (c.mem p).expiration) (succeeded nil)

  -- One round of the loop of BatchExecute.
  unfoldable pub batch_step :
      Cache z → ℕ → ℤ → BatchOperation z.Packed → Option (BatchResult z.Packed × Cache z)
  batch_step c pick now op =
      if text_eq op.type (codes "SET")
      then batch_set c pick now op
      else if text_eq op.type (codes "GET")
      then batch_get_found c now op.key (lookup op.key c.items)
      else if text_eq op.type (codes "DEL")
      then batch_del_found c op.key (lookup op.key c.items)
      else some (failed (codes "unknown operation"), c)

  -- `picks i` is the choice of sync.Pool in the round `i`.
  unfoldable pub batch_from :
      Cache z
      → (ℕ → ℕ)
      → ℤ
      → ℕ
      → List (BatchOperation z.Packed)
      → Option (List (BatchResult z.Packed) × Cache z)
  batch_from c picks now i [] = some ([], c)
  batch_from c picks now i (op ∷ ops) = elim (batch_step c (picks i) now op) [
    | some (result, c1) ↦ elim (batch_from c1 picks now (i + 1) ops) [
      | some (results, c2) ↦ some (result ∷ results, c2)
      | none ↦ none
    ]
    | none ↦ none
  ]

  unfoldable pub batch_execute :
      Cache z
      → (ℕ → ℕ)
      → ℤ
      → List (BatchOperation z.Packed)
      → Option (List (BatchResult z.Packed) × Cache z)
  batch_execute c picks now ops = batch_from c picks now 0 ops

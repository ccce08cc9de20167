-- ===== src/Cache.antt =====
-- cache/cache.go: the Cache struct and its methods. The mutex makes each method one step, so a
-- method is a function of the whole state; `now` is what time.Now().UnixNano() gives during the
-- step, taken as one instant. `none` stands for the run-time panic of container/heap.
pub mod Items
pub mod Valid
pub mod Deletion
pub mod Cleaning
pub mod Reads
pub mod Stale
pub mod Listing
pub mod Batch
use ant_cache.Base.{
  ℕ, zero, suc, ◌+◌, ℤ, pos, ◌+ℤ◌, Bool, true, false, ◌&&◌, ◌||◌, not, List, [], ◌∷◌, Option, none,
  some, Text, codes, text_eq, Table, lookup, insert, erase, length, ltb_ℤ, ◌==◌, wrap64,
  if◌then◌else◌,
}
use ant_cache.Item.{Value, nil, CacheItem, data_type, expired, update, Compression, stored, loaded}
use ant_cache.Heap.{Heap, at, len, push, pop, remove_at}
use ant_cache.Persistence.{PersistenceManager, log_to}

-- `next` is the first address that is not yet in use, and `item_pool` the items that were handed
-- back to the pool of reusable items.
pub record Cache (z : Compression) : Type 0 where
  pub items : Table ℕ
  pub heap : Heap z.Packed
  pub open heap use *
  pub next : ℕ
  pub item_pool : List ℕ
  pub persistence : Option (PersistenceManager z.Packed)
  pub compression_config : z.Config

-- `time.Now().Add(ttl).UnixNano()` for a positive duration, and 0 (no expiration) otherwise.
unfoldable pub expiration_of : ℤ → ℤ → ℤ
expiration_of now ttl = if ltb_ℤ (pos 0) ttl then wrap64 (now +ℤ ttl) else pos 0

-- What Get gives for an item that it found.
abbrev pub reading : (z : Compression) → ℤ → CacheItem z.Packed → Option (Value z.Packed)
reading z now item = if expired item now then none else some (loaded z item.value)

module _ {z : Compression} where
  -- `&CacheItem{...}`
  unfoldable pub alloc : Cache z → CacheItem z.Packed → Cache z
  alloc c item = record c {
    heap = record c.heap { mem = update c.mem c.next item };
    next = c.next + 1;
  }

  unfoldable pub logged : Cache z → ℤ → Text → Text → Value z.Packed → ℤ → Cache z
  logged c now type key value ttl = record c {
    persistence = log_to c.persistence now type key value ttl;
  }

  abbrev pub item_of : Cache z → ℤ → Text → Value z.Packed → ℤ → CacheItem z.Packed
  item_of c now key value ttl = record {
    value = stored z value c.compression_config;
    expiration = expiration_of now ttl;
    index = pos 0;
    key = key;
    type = data_type value;
  }

  -- Push a new item if it expires, and enter it in the map.
  unfoldable pub add_item : Cache z → Text → CacheItem z.Packed → Bool → Cache z
  add_item c key item expiring =
      let p = c.next in
      let c1 = alloc c item in
      let c2 = if expiring then record c1 { heap = push c1.heap p } else c1 in
      record c2 { items = insert key p c2.items }

  -- The common end of Set and SetNX: build the item and add it.
  unfoldable pub put_item : Cache z → ℤ → Text → Value z.Packed → ℤ → Cache z
  unfolding add_item
  put_item c now key value ttl = add_item c key (item_of c now key value ttl) (ltb_ℤ (pos 0) ttl)

  unfoldable pub set : Cache z → ℤ → Text → Value z.Packed → ℤ → Cache z
  set c now key value ttl = logged (put_item c now key value ttl) now (codes "SET") key value ttl

  -- Whether `key` is there and has not expired.
  abbrev pub live_at : Cache z → ℤ → Option ℕ → Bool
  live_at c now none = false
  live_at c now (some p) = not (expired (c.mem p) now)

  unfoldable pub live : Cache z → ℤ → Text → Bool
  live c now key = live_at c now (lookup key c.items)

  unfoldable pub set_nx : Cache z → ℤ → Text → Value z.Packed → ℤ → Bool × Cache z
  set_nx c now key value ttl =
      if live c now key
      then (false, c)
      else (true, logged (put_item c now key value ttl) now (codes "SETNX") key value ttl)

  -- `none` stands for `nil, false`.
  abbrev pub read : Cache z → ℤ → Option ℕ → Option (Value z.Packed)
  read c now none = none
  read c now (some p) = reading z now (c.mem p)

  unfoldable pub get : Cache z → ℤ → Text → Option (Value z.Packed)
  get c now key = read c now (lookup key c.items)

  unfoldable pub get_multiple_from :
      Cache z → ℤ → Table (Value z.Packed) → List Text → Table (Value z.Packed)
  get_multiple_from c now result [] = result
  get_multiple_from c now result (key ∷ keys) =
      get_multiple_from c now
        (elim (get c now key) [ some v ↦ insert key v result | none ↦ result ]) keys

  unfoldable pub get_multiple : Cache z → ℤ → List Text → Table (Value z.Packed)
  unfolding get_multiple_from
  get_multiple c now keys = get_multiple_from c now [] keys

  -- The heap without an item that expires, where the item has a position.
  unfoldable pub unheap : Cache z → ℕ → Option (Cache z)
  unheap c p =
      if ltb_ℤ (pos 0) (c.mem p).expiration && not (ltb_ℤ (c.mem p).index (pos 0))
      then (elim (remove_at c.heap (c.mem p).index) [
        | some (_, h) ↦ some (record c { heap = h })
        | none ↦ none
      ])
      else some c

  unfoldable pub delete_found : Cache z → ℤ → Text → Option ℕ → Option (Bool × Cache z)
  delete_found c now key none = some (false, c)
  delete_found c now key (some p) = elim (unheap c p) [
    | some c1 ↦ some (
      true,
      logged (record c1 { items = erase key c1.items }) now (codes "DEL") key (Value.str [])
          (pos 0),
    )
    | none ↦ none
  ]

  unfoldable pub delete : Cache z → ℤ → Text → Option (Bool × Cache z)
  unfolding delete_found
  delete c now key = delete_found c now key (lookup key c.items)

  -- Each round takes an item off the heap, so `len` rounds are enough.
  unfoldable pub cleanup_loop : ℕ → Cache z → ℤ → Option (Cache z)
  cleanup_loop zero c now = some c
  cleanup_loop (suc k) c now =
      let rest : Option (Cache z) = elim (pop c.heap) [
        | some (p, h) ↦
            cleanup_loop k (record c { heap = h; items = erase (h.mem p).key c.items }) now
        | none ↦ none
      ] in
      if len c.heap == 0 || ltb_ℤ now (c.mem (at c.heap 0)).expiration then some c else rest

  unfoldable pub cleanup : Cache z → ℤ → Option (Cache z)
  cleanup c now = cleanup_loop (len c.heap) c now

  unfoldable pub keys_from : Cache z → ℤ → Text → Table ℕ → List Text
  keys_from c now pattern [] = []
  keys_from c now pattern ((key, p) ∷ rest) =
      let more = keys_from c now pattern rest in
      if expired (c.mem p) now
      then more
      else if text_eq pattern (codes "*")
      then key ∷ more
      else more

  unfoldable pub keys : Cache z → ℤ → Text → List Text
  unfolding keys_from
  keys c now pattern = keys_from c now pattern c.items

  unfoldable pub flush_all : Cache z → ℕ × Cache z
  flush_all c = (length c.items, record c { items = []; heap = record c.heap { slice = [] } })

  unfoldable pub new : Cache z
  new = record {
    items = [];
    heap = record {
      mem = λ p. record { value = nil; expiration = pos 0; index = pos 0; key = []; type = [] };
      slice = [];
    };
    next = 0;
    item_pool = [];
    persistence = none;
    compression_config = z.default_config;
  }

-- ===== src/Atd.antt =====
-- cache/persistence.go: SaveAtd and LoadAtd, on the bytes of the snapshot (ATD) file before gzip. A
-- file that is not there is `none`; the errors of the file system are left out.
pub mod Bytes
pub mod Values
pub mod RoundTrip
pub mod Snapshot
pub mod Loaded
use ant_cache.Base.{
  ℕ, zero, suc, ◌+◌, ℤ, pos, Bool, true, false, List, [], ◌∷◌, ◌++◌, Option, none, some, Text,
  length, Table, insert, ltb_ℤ, ◌==◌, ◌&&◌, not, if◌then◌else◌,
}
use ant_cache.Item.{CacheItem, Compression, expired}
use ant_cache.Heap.{push}
use ant_cache.Persistence.{PersistenceManager}
use ant_cache.Cache.{Cache, alloc}
use ant_cache.Atd.Bytes.{
  Reader, ◌>>=◌, return, failure, read_byte, write_u32, write_i64, read_u32, read_i64,
}
use ant_cache.Atd.Values.{write_string16, write_atd_value, read_string16, read_atd_value}

-- "ANTC"
abbrev pub magic_header : ℕ
magic_header = 0x414E5443

abbrev pub version : ℕ
version = 1

abbrev pub record_item : ℕ
record_item = 1

abbrev pub record_end : ℕ
record_end = 255

-- The header holds the time in seconds.
unfoldable pub write_atd_header : ℤ → Text
write_atd_header timestamp = write_u32 magic_header ++ ((version ∷ []) ++ write_i64 timestamp)

-- Goes on where the test holds, and else returns an error.
abbrev pub require : {A : Type 0} → Bool → Reader A → Reader A
require ok p = if ok then p else failure

unfoldable pub read_atd_header : Reader ℤ
read_atd_header = read_u32 >>= λ magic.
    require (magic == magic_header) (read_byte >>= λ v. require (v == version) read_i64)

module _ {P : Type 0} where
  unfoldable pub write_atd_item : (P → Text) → Text → CacheItem P → Text
  write_atd_item show key item =
      record_item
      ∷ (write_string16 key ++ (write_atd_value show item.value ++ write_i64 item.expiration))

  -- The item, unless it has expired.
  abbrev pub unless_expired : ℤ → CacheItem P → Option (CacheItem P)
  unless_expired now item = if expired item now then none else some item

  unfoldable pub read_atd_item : ℤ → Reader (Text × Option (CacheItem P))
  read_atd_item now = do
    key ← read_string16
    value ← read_atd_value
    expiration ← read_i64
    return (
      key,
      unless_expired now
          (record { value = value; expiration = expiration; index = pos 0; key = key; type = [] }),
    )

  -- The loop of SaveAtd, which passes over what has expired.
  unfoldable pub write_items : (P → Text) → (ℕ → CacheItem P) → ℤ → Table ℕ → Text
  write_items show mem now [] = []
  write_items show mem now ((key, p) ∷ items) =
      let more = write_items show mem now items in
      if expired (mem p) now then more else write_atd_item show key (mem p) ++ more

module _ {z : Compression} where
  -- A disabled manager writes nothing.
  unfoldable pub save_atd :
      PersistenceManager z.Packed → (z.Packed → Text) → Cache z → ℤ → ℤ → Option Text
  save_atd pm show c now timestamp =
      if pm.enabled
      then some
          (write_atd_header timestamp ++ (write_items show c.mem now c.items ++ record_end ∷ []))
      else none

  unfoldable pub load_item : Cache z → Text → Option (CacheItem z.Packed) → Cache z
  load_item c key none = c
  load_item c key (some item) =
      let p = c.next in
      let c1 = alloc c item in
      let c2 = record c1 { items = insert key p c1.items } in
      if ltb_ℤ (pos 0) item.expiration then record c2 { heap = push c2.heap p } else c2

  -- The loop of LoadAtd, with whether it ends without an error: each round takes a byte at least.
  unfoldable pub load_records : ℕ → Cache z → ℤ → Text → Bool × Cache z
  load_records zero c now s = (false, c)
  load_records (suc n) c now [] = (true, c)
  load_records (suc n) c now (t ∷ s) =
      let item : Bool × Cache z = elim (read_atd_item {P = z.Packed} now s) [
        | some ((key, item), rest) ↦ load_records n (load_item c key item) now rest
        | none ↦ (false, c)
      ] in
      if t == record_item then item else if t == record_end then (true, c) else (false, c)

  abbrev pub cleared : Cache z → Cache z
  cleared c = record c { items = []; heap = record c.heap { slice = [] } }

  abbrev pub load_file : Cache z → ℤ → Option Text → Bool × Cache z
  load_file c now none = (true, c)
  load_file c now (some file) = elim (read_atd_header file) [
    | some (_, s) ↦ load_records (suc (length s)) (cleared c) now s
    | none ↦ (false, c)
  ]

  unfoldable pub load_atd : PersistenceManager z.Packed → Cache z → ℤ → Option Text → Bool × Cache z
  unfolding load_records
  load_atd pm c now file = if pm.enabled then load_file c now file else (true, c)

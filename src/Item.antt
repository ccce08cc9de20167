-- ===== src/Item.antt =====
-- cache/cache.go: the values of the cache, the `CacheItem` structs and the memory that holds them.
-- A `*CacheItem` is a number, and the memory gives the struct at each.
use ant_cache.Base.{
  ℕ, ℤ, pos, Bool, List, Text, Table, codes, ◌==◌, if◌then◌else◌, ◌≡◌, Option, none, some, ltb_ℤ,
  ◌&&◌,
}

-- The dynamic types of an `interface{}` value. `other` holds what the compression code returns,
-- whose type `P` is not in the repository.
pub data Value (P : Type 0) : Type 0 where
  nil : Value P
  str : Text → Value P
  array : List Text → Value P
  object : Table Text → Value P
  other : P → Value P

pub record CacheItem (P : Type 0) : Type 0 where
  pub value : Value P
  pub expiration : ℤ
  pub index : ℤ
  pub key : Text
  pub type : Text

-- The `switch value.(type)` that chooses the item's type.
abbrev pub data_type : {P : Type 0} → Value P → Text
data_type (array _) = codes "array"
data_type (object _) = codes "object"
data_type _ = codes "string"

-- `item.Expiration > 0 && now > item.Expiration`
abbrev pub expired : {P : Type 0} → CacheItem P → ℤ → Bool
expired item now = ltb_ℤ (pos 0) item.expiration && ltb_ℤ item.expiration now

abbrev pub Memory : Type 0 → Type 0
Memory P = ℕ → CacheItem P

abbrev pub update : {P : Type 0} → Memory P → ℕ → CacheItem P → Memory P
update mem p item q = if q == p then item else mem q

-- `p.index = i`
abbrev pub set_index : {P : Type 0} → Memory P → ℕ → ℤ → Memory P
set_index mem p i = update mem p (record (mem p) { index = i })

-- What the heap operations leave alone: an item but for its index.
abbrev pub strip : {P : Type 0} → CacheItem P → CacheItem P
strip item = record item { index = pos 0 }

-- The functions CompressValue, DecompressValue and DefaultCompressionConfig, whose file is not in
-- the repository. `none` stands for a returned error.
pub record Compression : Type 1 where
  pub Packed : Type 0
  pub Config : Type 0
  pub default_config : Config
  pub compress : Value Packed → Text → Config → Option (Value Packed)
  pub decompress : Value Packed → Option (Value Packed)

-- `compressedValue`: the original value where compression fails.
abbrev pub stored : (z : Compression) → Value z.Packed → z.Config → Value z.Packed
stored z v config = elim (z.compress v (data_type v) config) [ some w ↦ w | none ↦ v ]

-- What Get returns for a stored value: the stored value where decompression fails.
abbrev pub loaded : (z : Compression) → Value z.Packed → Value z.Packed
loaded z w = elim (z.decompress w) [ some v ↦ v | none ↦ w ]

-- What the cache relies on: reading a stored value gives the value that was stored.
abbrev pub Restores : Compression → Type 0
Restores z = (v : Value z.Packed) (config : z.Config) → loaded z (stored z v config) ≡ v

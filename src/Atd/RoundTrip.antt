-- ===== src/Atd/RoundTrip.antt =====
-- cache/persistence.go: the header and the items of a snapshot, written and then read.
use ant_cache.Cache.Items.{add_item-items, add_item-next, get-add_item}
use ant_cache.Base.{
  ℕ, ◌+◌, ◌<◌, ◌≡◌, refl, ap, ◌∙◌, inl, inr, Bool-cases, arith, ℤ, pos, IsInt64, Text, some, ltb_ℤ,
  lookup, insert, lookup-insert, text_eq, if◌then◌else◌, [], ◌∷◌, ◌++◌,
}
use ant_cache.Item.{CacheItem, Compression}
use ant_cache.Cache.{Cache, reading, get, add_item}
use ant_cache.Atd.{
  magic_header, version, write_atd_header, read_atd_header, read_atd_item, unless_expired,
  load_item,
}
use ant_cache.Atd.Bytes.{read_byte, write_u32, write_i64, read_u32, read_i64}
use ant_cache.Atd.Bytes.RoundTrip.{
  Reads, Reads-bind, Reads-map, read_byte-Reads, read_u32-Reads, read_i64-Reads,
}
use ant_cache.Atd.Values.{write_string16, write_atd_value, read_string16, read_atd_value}
use ant_cache.Atd.Values.RoundTrip.{FitsU16, IsWritable, read_string16-Reads, read_atd_value-Reads}

pub header-Reads :
    (timestamp : ℤ)
    → IsInt64 timestamp
    → Reads read_atd_header (write_atd_header timestamp) timestamp
unfolding read_atd_header write_atd_header
header-Reads timestamp h =
    Reads-bind read_u32 _ (write_u32 magic_header) _ magic_header _
      (read_u32-Reads magic_header (omega arith))
      (Reads-bind read_byte _ (version ∷ []) (write_i64 timestamp) version _
        (read_byte-Reads version) (read_i64-Reads timestamp h))

-- An item whose parts fit the fields of a record.
abbrev pub IsRecord : {P : Type 0} → Text → CacheItem P → Type 0
IsRecord key item = FitsU16 key × (IsWritable item.value × IsInt64 item.expiration)

-- The item that a record holds: the type and the position are not written.
abbrev pub restored : {P : Type 0} → Text → CacheItem P → CacheItem P
restored key item = record {
  value = item.value;
  expiration = item.expiration;
  index = pos 0;
  key = key;
  type = [];
}

pub item_body-Reads :
    {P : Type 0} (show : P → Text) (now : ℤ) (key : Text) (item : CacheItem P)
    → IsRecord key item
    → Reads
        (read_atd_item now)
        (write_string16 key ++ (write_atd_value show item.value ++ write_i64 item.expiration))
        (key, unless_expired now (restored key item))
unfolding read_atd_item
item_body-Reads show now key item (hk, (hv, he)) =
    Reads-bind read_string16 _ (write_string16 key) _ key _ (read_string16-Reads key hk) (
      Reads-bind read_atd_value _ (write_atd_value show item.value) _ item.value _
        (read_atd_value-Reads show item.value hv)
        (Reads-map read_i64 _ (write_i64 item.expiration) item.expiration
          (read_i64-Reads item.expiration he)))

module _ {z : Compression} where
  -- The addresses that the map gives are in use.
  abbrev pub IsUsed : Cache z → Type 0
  IsUsed c = (k : Text) (p : ℕ) → lookup k c.items ≡ some p → p < c.next

  module _ (c : Cache z) (key : Text) (item : CacheItem z.Packed) where
    abbrev pub loaded_item : Cache z
    loaded_item = load_item c key (some item)

    -- Loading an item adds it, and pushes it if it expires.
    pub loaded_item_lem : loaded_item ≡ add_item c key item (ltb_ℤ (pos 0) item.expiration)
    unfolding load_item add_item
    loaded_item_lem = elim (Bool-cases (ltb_ℤ (pos 0) item.expiration)) [
      | inl expiring ↦ rw expiring refl
      | inr lasting ↦ rw lasting refl
    ]

    pub loaded_item-items : loaded_item.items ≡ insert key c.next c.items
    loaded_item-items = ap (λ (x : Cache z). x.items) loaded_item_lem ∙ add_item-items c key item _

    loaded_item-next : loaded_item.next ≡ c.next + 1
    loaded_item-next = ap (λ (x : Cache z). x.next) loaded_item_lem ∙ add_item-next c key item _

    pub loaded_item-IsUsed : IsUsed c → IsUsed loaded_item
    loaded_item-IsUsed u k p e =
        let e' = rw (loaded_item-items, lookup-insert) at e in
        rw loaded_item-next (elim (Bool-cases (text_eq key k)) [
          | inl same ↦ ground arith
          | inr other ↦
              let old : lookup k c.items ≡ some p = ground arith in omega (arith, u k p old)
        ])

    pub loaded_item-get :
        (t : ℤ) (k : Text)
        → IsUsed c
        → get loaded_item t k ≡ (if text_eq key k then reading z t item else get c t k)
    loaded_item-get t k u =
        ap (λ (x : Cache z). get x t k) loaded_item_lem ∙ get-add_item c key item _ t k u

-- ===== src/Atd/Snapshot.antt =====
-- cache/persistence.go: SaveAtd followed by LoadAtd, as Get of cache/cache.go sees the cache.
use ant_cache.Base.{
  ℕ, zero, suc, ◌<◌, ◌≡◌, refl, ap, ◌∙◌, sym, inl, inr, Bool-cases, Option-cases, arith, ℤ, ◌≤ℤ◌,
  IsInt64, Text, Option, none, some, lookup, Table, length, length-append, lookup-insert, text_eq,
  text_eq_iff, if◌then◌else◌, true, false, [], ◌∷◌, ◌++◌, All,
}
use mathlib.Core.List.{append_assoc}
use ant_cache.Item.{Value, CacheItem, Compression, expired}
use ant_cache.Persistence.{PersistenceManager}
use ant_cache.Cache.{Cache, reading, get}
use ant_cache.Atd.{
  record_end, write_atd_header, write_atd_item, read_atd_item, unless_expired, write_items,
  save_atd, load_item, load_records, cleared, load_file, load_atd,
}
use ant_cache.Atd.Bytes.{write_i64}
use ant_cache.Atd.Values.{write_string16, write_atd_value}
use ant_cache.Atd.Values.RoundTrip.{IsMap}
use ant_cache.Atd.RoundTrip.{
  header-Reads, IsRecord, restored, item_body-Reads, IsUsed, loaded_item-IsUsed, loaded_item-get,
  loaded_item-items,
}

-- What Get gives at `t` where the map gives `o`, and `d` where it gives nothing.
abbrev pub at_time :
    (z : Compression)
    → (ℕ → CacheItem z.Packed)
    → ℤ
    → Option ℕ
    → Option (Value z.Packed)
    → Option (Value z.Packed)
at_time z mem t none d = d
at_time z mem t (some p) d = reading z t (mem p)

abbrev pub FitRecords : {P : Type 0} → (ℕ → CacheItem P) → Table ℕ → Type 0
FitRecords mem m = All (λ (key, p). IsRecord key (mem p)) m

-- The file after its header.
abbrev records : {P : Type 0} → (P → Text) → (ℕ → CacheItem P) → ℤ → Table ℕ → Text
records show mem saved m = write_items show mem saved m ++ record_end ∷ []

item_takes :
    {P : Type 0} (show : P → Text) (key : Text) (item : CacheItem P)
    → 0 < length (write_atd_item show key item)
unfolding write_atd_item
item_takes show key item = omega arith

gone_at :
    (key k : Text) (m : Table ℕ) → text_eq key k ≡ true → lookup key m ≡ none → lookup k m ≡ none
gone_at key k m same gone = ap (λ j. lookup j m) (sym ((text_eq_iff key k).0 same)) ∙ gone

module _ {z : Compression} where
  record-load :
      (show : z.Packed → Text) (c : Cache z) (n : ℕ) (now : ℤ) (key rest : Text)
      (item : CacheItem z.Packed)
      → IsRecord key item
      → load_records (suc n) c now (write_atd_item show key item ++ rest)
        ≡ load_records n (load_item c key (unless_expired now (restored key item))) now rest
  unfolding load_records write_atd_item
  record-load show c n now key rest item h =
      let e : read_atd_item now (
            (write_string16 key ++ (write_atd_value show item.value ++ write_i64 item.expiration))
            ++ rest)
          ≡ some ((key, unless_expired now (restored key item)), rest) =
        item_body-Reads show now key item h rest in
      rw e refl

  -- Loading an item that has expired leaves the key as absent as it was.
  load_live :
      (c : Cache z) (key : Text) (item : CacheItem z.Packed) (now t : ℤ) (k : Text)
      → IsUsed c
      → lookup key c.items ≡ none
      → now ≤ℤ t
      → get (load_item c key (unless_expired now (restored key item))) t k
        ≡ (if text_eq key k then reading z t item else get c t k)
  load_live c key item now t k u absent later = elim (Bool-cases (expired item now)) [
    | inl dead ↦ rw dead (elim (Bool-cases (text_eq key k)) [
      | inl same ↦
          let dead_then : expired item t ≡ true = ground arith in
          let gone : lookup k c.items ≡ none =
            ap (λ j. lookup j c.items) (sym ((text_eq_iff key k).0 same)) ∙ absent in
          rw (same, dead_then) (unfold get load_item in rw gone refl)
      | inr other ↦ rw other (unfold load_item in refl)
    ])
    | inr alive ↦ rw alive (loaded_item-get c key (restored key item) t k u)
  ]

  load-IsUsed :
      (c : Cache z) (key : Text) (item : CacheItem z.Packed) (now : ℤ)
      → IsUsed c
      → IsUsed (load_item c key (unless_expired now (restored key item)))
  load-IsUsed c key item now u = elim (Bool-cases (expired item now)) [
    | inl dead ↦ rw dead (unfold load_item in u)
    | inr alive ↦ rw alive (loaded_item-IsUsed c key (restored key item) u)
  ]

  load_absent :
      (c : Cache z) (key : Text) (item : CacheItem z.Packed) (now : ℤ) (j : Text)
      → lookup j c.items ≡ none
      → text_eq key j ≡ false
      → lookup j (load_item c key (unless_expired now (restored key item))).items ≡ none
  load_absent c key item now j absent other = elim (Bool-cases (expired item now)) [
    | inl dead ↦ rw dead (unfold load_item in absent)
    | inr alive ↦ rw alive (
        ap (lookup j) (loaded_item-items c key (restored key item))
        ∙ lookup-insert key j c.next c.items
        ∙ rw other absent)
  ]

  -- None of the map's keys is in the cache.
  abbrev AllAbsent : Cache z → Table ℕ → Type 0
  AllAbsent c m = All (λ (key, p). lookup key c.items ≡ none) m

  load-AllAbsent :
      (c : Cache z) (key : Text) (item : CacheItem z.Packed) (now : ℤ) (m : Table ℕ)
      → lookup key m ≡ none
      → AllAbsent c m
      → AllAbsent (load_item c key (unless_expired now (restored key item))) m
  unfolding lookup
  load-AllAbsent c key item now [] h a = tt
  load-AllAbsent c key item now ((j, p) ∷ m) h (aj, am) =
      let other : text_eq key j ≡ false = ground (arith, text_eq_iff key j, text_eq_iff j key) in
      (load_absent c key item now j aj other, load-AllAbsent c key item now m (ground arith) am)

  module _ (show : z.Packed → Text) (mem : ℕ → CacheItem z.Packed) (saved now t : ℤ)
      (aged : saved ≤ℤ now) (later : now ≤ℤ t) where
    records-load :
        (m : Table ℕ) (c : Cache z) (n : ℕ)
        → FitRecords mem m
        → IsMap m
        → AllAbsent c m
        → IsUsed c
        → length (records show mem saved m) < n
        → ((load_records n c now (records show mem saved m)).0 ≡ true)
          × ((k : Text)
              → get (load_records n c now (records show mem saved m)).1 t k
                ≡ at_time z mem t (lookup k m) (get c t k))
    unfolding write_items lookup
    records-load m c zero h d a u fuel = absurd (omega arith)
    records-load [] c (suc n) h d a u fuel = unfold load_records in (refl, λ k. refl)
    records-load ((key, p) ∷ m) c (suc n) (hp, hm) (dk, dm) (ak, am) u fuel =
        elim (Bool-cases (expired (mem p) saved)) [
          | inl dead ↦
              let (e, w) = records-load m c (suc n) hm dm am u (ground arith) in
              rw dead (
                e,
                λ k. w k ∙ elim (Bool-cases (text_eq key k)) [
                  | inl same ↦
                      let dead_then : expired (mem p) t ≡ true = ground arith in
                      rw (same, gone_at key k m same dk, dead_then)
                        (unfold get in rw (gone_at key k c.items same ak) refl)
                  | inr other ↦ rw other refl
                ],
              )
          | inr alive ↦
              let c' = load_item c key (unless_expired now (restored key (mem p))) in
              let step : records show mem saved ((key, p) ∷ m)
                  ≡ write_atd_item show key (mem p) ++ records show mem saved m =
                rw alive (
                  append_assoc (write_atd_item show key (mem p)) (write_items show mem saved m)
                    (record_end ∷ [])) in
              let shorter : length (records show mem saved m) < n = omega (
                arith,
                ap length step
                    ∙ length-append (write_atd_item show key (mem p)) (records show mem saved m),
                item_takes show key (mem p),
              ) in
              let (e, w) =
                records-load m c' n hm dm (load-AllAbsent c key (mem p) now m dk am)
                  (load-IsUsed c key (mem p) now u) shorter in
              rw (step, record-load show c n now key (records show mem saved m) (mem p) hp)
                (
                  e,
                  λ k.
                      w k
                      ∙ ap (at_time z mem t (lookup k m))
                          (load_live c key (mem p) now t k u ak later)
                      ∙ elim (Bool-cases (text_eq key k)) [
                        | inl same ↦ rw (same, gone_at key k m same dk) refl
                        | inr other ↦ rw other refl
                      ],
                )
        ]

  cleared-AllAbsent : (c : Cache z) (m : Table ℕ) → AllAbsent (cleared c) m
  unfolding lookup
  cleared-AllAbsent c [] = tt
  cleared-AllAbsent c (x ∷ m) = (refl, cleared-AllAbsent c m)

  cleared-IsUsed : (c : Cache z) → IsUsed (cleared c)
  unfolding lookup
  cleared-IsUsed c k p e = cc

  at_time-cleared :
      (c d : Cache z) (t : ℤ) (k : Text)
      → at_time z c.mem t (lookup k c.items) (get (cleared d) t k) ≡ get c t k
  unfolding get lookup
  at_time-cleared c d t k = elim (Option-cases (lookup k c.items)) [
    | inl absent ↦ rw absent refl
    | inr (p, found) ↦ rw found refl
  ]

  load_file-header :
      (d : Cache z) (now timestamp : ℤ) (body : Text)
      → IsInt64 timestamp
      → load_file d now (some (write_atd_header timestamp ++ body))
        ≡ load_records (suc (length body)) (cleared d) now body
  load_file-header d now timestamp body h = rw (load_file, header-Reads timestamp h body) refl

  -- Where a snapshot is saved from cache `c` at time `saved` and loaded at time `now` into cache `d`
  -- with the manager enabled, the load ends without an error, and from then on Get gives for each key
  -- what it would have given in `c`. The conditions: no key stands twice in the map; the keys, values
  -- and expiration times fit the fields of the file; the values are strings, arrays or objects, no nil
  -- and no compressed ones; the time of the file is an int64; and the clock does not go back.
  pub load_atd-save_atd :
      (pm : PersistenceManager z.Packed) (show : z.Packed → Text) (c d : Cache z)
      (saved timestamp now t : ℤ) (k : Text)
      → pm.enabled ≡ true
      → IsMap c.items
      → FitRecords c.mem c.items
      → IsInt64 timestamp
      → saved ≤ℤ now
      → now ≤ℤ t
      → ((load_atd pm d now (save_atd pm show c saved timestamp)).0 ≡ true)
        × (get (load_atd pm d now (save_atd pm show c saved timestamp)).1 t k ≡ get c t k)
  unfolding load_atd save_atd
  load_atd-save_atd pm show c d saved timestamp now t k enabled distinct fit fits aged later =
      let body = records show c.mem saved c.items in
      let loaded =
        records-load show c.mem saved now t aged later c.items (cleared d) (suc (length body)) fit
          distinct (cleared-AllAbsent d c.items) (cleared-IsUsed d) (omega arith) in
      rw enabled (
        rw (load_file-header d now timestamp body fits)
          (loaded.0, loaded.1 k ∙ at_time-cleared c d t k))

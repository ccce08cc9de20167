-- ===== src/Atd/Loaded.antt =====
-- cache/persistence.go: the well-formedness of the cache that LoadAtd leaves.
use mathlib.Core.Path.{subst}
use ant_cache.Base.{
  ℕ, zero, suc, ◌≡◌, refl, inl, inr, Bool-cases, arith, ℤ, pos, Text, Option, none, some, ltb_ℤ,
  lookup, if◌then◌else◌, ◌==◌, true, false, Bool, [], ◌∷◌, length, sym,
}
use ant_cache.Item.{CacheItem, Compression, expired}
use ant_cache.Persistence.{PersistenceManager}
use ant_cache.Cache.{Cache}
use ant_cache.Cache.Valid.{IsValid, add_item-IsValid}
use ant_cache.Atd.{
  record_item, record_end, read_atd_header, read_atd_item, unless_expired, load_item, load_records,
  cleared, load_file, load_atd,
}
use ant_cache.Atd.Bytes.{Reader, ◌>>=◌, pass, read_i64}
use ant_cache.Atd.Values.{read_string16, read_atd_value}
use ant_cache.Atd.RoundTrip.{loaded_item_lem}

-- What a reader returns, if it returns anything, has a property.
abbrev Gives : {A : Type 0} → (A → Type 0) → Option (A × Text) → Type 0
Gives P none = Unit {0}
Gives P (some (a, s)) = P a

Gives-bind :
    {A B : Type 0} (P : B → Type 0) (p : Reader A) (f : A → Reader B) (s : Text)
    → ((a : A) (rest : Text) → Gives P (f a rest))
    → Gives P ((p >>= f) s)
unfolding ◌>>=◌
Gives-bind {A = A} P p f s h = go (p s)
  where
    go : (o : Option (A × Text)) → Gives P (pass f o)
    go none = tt
    go (some (a, rest)) = h a rest

abbrev NamesItem : {P : Type 0} → Text × Option (CacheItem P) → Type 0
NamesItem (key, none) = Unit {0}
NamesItem (key, some item) = item.key ≡ key

unless_expired-NamesItem :
    {P : Type 0} (now : ℤ) (key : Text) (item : CacheItem P)
    → item.key ≡ key
    → NamesItem (key, unless_expired now item)
unless_expired-NamesItem now key item h = elim (Bool-cases (expired item now)) [
  | inl dead ↦ rw dead tt
  | inr alive ↦ rw alive h
]

read_atd_item-Gives :
    (P : Type 0) (now : ℤ) (s : Text) → Gives (NamesItem {P = P}) (read_atd_item now s)
unfolding read_atd_item
read_atd_item-Gives P now s = Gives-bind NamesItem read_string16 _ s (λ key s1.
    Gives-bind NamesItem read_atd_value _ s1 (λ value s2.
      Gives-bind NamesItem read_i64 _ s2
        (λ expiration s3. unless_expired-NamesItem now key _ refl)))

module _ {z : Compression} where
  load_item-IsValid :
      (c : Cache z) (key : Text) (item : Option (CacheItem z.Packed))
      → IsValid c
      → NamesItem (key, item)
      → IsValid (load_item c key item)
  load_item-IsValid c key none v h = unfold load_item in v
  load_item-IsValid c key (some item) v h =
      subst IsValid (sym (loaded_item_lem c key item))
        (add_item-IsValid c key item (ltb_ℤ (pos 0) item.expiration) v h (λ alive. ground arith))

  load_records-IsValid :
      (n : ℕ) (c : Cache z) (now : ℤ) (s : Text) → IsValid c → IsValid (load_records n c now s).1
  unfolding load_records
  load_records-IsValid zero c now s v = v
  load_records-IsValid (suc n) c now [] v = v
  load_records-IsValid (suc n) c now (t ∷ s) v =
      by_item (read_atd_item {P = z.Packed} now s) (read_atd_item-Gives z.Packed now s)
        (λ c' s' v'. load_records-IsValid n c' now s' v')
    where
      by_type :
          (r : Bool × Cache z)
          → IsValid r.1
          → IsValid
              (if t == record_item then r else if t == record_end then (true, c) else (false, c)).1
      by_type r h = elim (Bool-cases (t == record_item)) [
        | inl item ↦ rw item h
        | inr other ↦ rw other (elim (Bool-cases (t == record_end)) [
          | inl end ↦ rw end v
          | inr unknown ↦ rw unknown v
        ])
      ]

      by_item :
          (o : Option ((Text × Option (CacheItem z.Packed)) × Text))
          → Gives NamesItem o
          → ((c' : Cache z) (s' : Text) → IsValid c' → IsValid (load_records n c' now s').1)
          → IsValid
              (if t == record_item
                then (elim o as (λ _. Bool × Cache z) [
                  | some ((key, item), rest) ↦ load_records n (load_item c key item) now rest
                  | none ↦ (false, c)
                ])
                else if t == record_end
                then (true, c)
                else (false, c)).1
      by_item none h smaller = by_type (false, c) v
      by_item (some ((key, item), rest)) h smaller =
          by_type (load_records n (load_item c key item) now rest)
            (smaller (load_item c key item) rest (load_item-IsValid c key item v h))

  cleared-IsValid : (c : Cache z) → IsValid (cleared c)
  unfolding lookup
  cleared-IsValid c = record {
    heap = record { ordered = λ i p q. elim q [ ]; indexed = λ i q. elim q [ ] };
    tracked = λ k p e. cc;
    keyed = λ k p e. cc;
    mapped_used = λ k p e. cc;
    heaped_used = λ p (i, q, e). elim q [ ];
  }

  load_file-IsValid :
      (c : Cache z) (now : ℤ) (file : Option Text) → IsValid c → IsValid (load_file c now file).1
  load_file-IsValid c now none v = v
  load_file-IsValid c now (some file) v = by_header (read_atd_header file)
    where
      by_header :
          (o : Option (ℤ × Text))
          → IsValid
              (elim o as (λ _. Bool × Cache z) [
                | some (_, s) ↦ load_records (suc (length s)) (cleared c) now s
                | none ↦ (false, c)
              ]).1
      by_header none = v
      by_header (some (stamp, s)) =
          load_records-IsValid (suc (length s)) (cleared c) now s (cleared-IsValid c)

  -- LoadAtd into a well-formed cache leaves a well-formed cache, whatever the file holds: also where
  -- it is damaged or cut short, and the load ends with an error.
  pub load_atd-IsValid :
      (pm : PersistenceManager z.Packed) (c : Cache z) (now : ℤ) (file : Option Text)
      → IsValid c
      → IsValid (load_atd pm c now file).1
  unfolding load_atd
  load_atd-IsValid pm c now file v = elim (Bool-cases pm.enabled) [
    | inl on ↦ rw on (load_file-IsValid c now file v)
    | inr off ↦ rw off v
  ]

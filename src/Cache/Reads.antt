-- ===== src/Cache/Reads.antt =====
-- cache/cache.go: what Get returns after each method.
use ant_cache.Base.{
  ℕ, ◌≡◌, refl, ap, ◌∙◌, sym, inl, inr, Bool-cases, arith, ℤ, pos, ◌<ℤ◌, Text, Option, none, some,
  ltb_ℤ, lookup, text_eq, if◌then◌else◌, true, false, ◌&&◌, is_some, not,
}
use mathlib.Core.Path.{subst}
use mathlib.Core.Option.{some-injective}
use ant_cache.Item.{Value, CacheItem, Compression, Restores, strip}
use ant_cache.Heap.Frame.{SameItems}
use ant_cache.Heap.Rearrange.{Holds}
use ant_cache.Cache.{
  Cache, read, reading, expiration_of, item_of, put_item, logged, set, set_nx, live_at, live, get,
  delete, cleanup,
}
use ant_cache.Cache.Items.{get-add_item}
use ant_cache.Cache.Valid.{IsValid}
use ant_cache.Cache.Deletion.{delete_total}
use ant_cache.Cache.Cleaning.{Cleaned, cleanup_total}

-- Get sees an item only through what the heap operations leave alone.
reading-strip :
    (z : Compression) (now : ℤ) (a b : CacheItem z.Packed)
    → strip a ≡ strip b
    → reading z now a ≡ reading z now b
reading-strip z now a b e = ap (reading z now) e

-- What Get gives at `t` for a value that Set stored at `now`.
abbrev pub fresh {ℓ} : {V : Type ℓ} → ℤ → ℤ → ℤ → V → Option V
fresh t now ttl value =
    if ltb_ℤ (pos 0) (expiration_of now ttl) && ltb_ℤ (expiration_of now ttl) t
    then none
    else some value

module _ {z : Compression} where
  put_item-get :
      (c : Cache z) (now : ℤ) (key : Text) (value : Value z.Packed) (ttl : ℤ) (t : ℤ) (k : Text)
      → Restores z
      → IsValid c
      → get (put_item c now key value ttl) t k
        ≡ (if text_eq key k then fresh t now ttl value else get c t k)
  unfolding put_item
  put_item-get c now key value ttl t k restores v =
      get-add_item c key (item_of c now key value ttl) (ltb_ℤ (pos 0) ttl) t k v.mapped_used
      ∙ rw (restores value c.compression_config) refl

  logged-get :
      (c : Cache z) (now : ℤ) (type key : Text) (value : Value z.Packed) (ttl t : ℤ) (k : Text)
      → get (logged c now type key value ttl) t k ≡ get c t k
  unfolding logged get
  logged-get c now type key value ttl t k = refl

  -- In a well-formed cache, after Set, Get of the key gives the value until it expires, and Get of any
  -- other key gives what it gave before.
  pub get-set :
      (c : Cache z) (now : ℤ) (key : Text) (value : Value z.Packed) (ttl t : ℤ) (k : Text)
      → Restores z
      → IsValid c
      → get (set c now key value ttl) t k
        ≡ (if text_eq key k then fresh t now ttl value else get c t k)
  unfolding set
  get-set c now key value ttl t k restores v =
      logged-get (put_item c now key value ttl) now _ key value ttl t k
      ∙ put_item-get c now key value ttl t k restores v

  live-get_at : (c : Cache z) (now : ℤ) (o : Option ℕ) → live_at c now o ≡ is_some (read c now o)
  live-get_at c now none = refl
  live-get_at c now (some p) = ground arith

  get-live :
      (c : Cache z) (now : ℤ) (key : Text)
      → live_at c now (lookup key c.items) ≡ is_some (get c now key)
  unfolding get
  get-live c now key = live-get_at c now (lookup key c.items)

  -- In a well-formed cache, SetNX answers whether Get finds nothing under the key. If so, Get of the
  -- key gives the value from then on until it expires; in all other cases Get gives what it gave before.
  pub get-set_nx :
      (c : Cache z) (now : ℤ) (key : Text) (value : Value z.Packed) (ttl t : ℤ) (k : Text)
      → Restores z
      → IsValid c
      → ((set_nx c now key value ttl).0 ≡ not (is_some (get c now key)))
        × (get (set_nx c now key value ttl).1 t k ≡ (
            if is_some (get c now key)
            then get c t k
            else if text_eq key k
            then fresh t now ttl value
            else get c t k))
  unfolding set_nx live
  get-set_nx c now key value ttl t k restores v =
      let e : live_at c now (lookup key c.items) ≡ is_some (get c now key) = get-live c now key in
      elim (Bool-cases (live_at c now (lookup key c.items))) [
        | inl taken ↦
            let found : is_some (get c now key) ≡ true = sym e ∙ taken in
            rw (taken, found) (refl, refl)
        | inr free ↦
            let missing : is_some (get c now key) ≡ false = sym e ∙ free in
            rw (free, missing)
              (
                refl,
                logged-get (put_item c now key value ttl) now _ key value ttl t k
                    ∙ put_item-get c now key value ttl t k restores v,
              )
      ]

  pub read_same :
      (c c' : Cache z) (t : ℤ) (o : Option ℕ) → SameItems c'.mem c.mem → read c' t o ≡ read c t o
  read_same c c' t none same = refl
  read_same c c' t (some p) same = reading-strip z t (c'.mem p) (c.mem p) (same p)

  -- In a well-formed cache Delete returns, its answer is whether the map had the key, and after it
  -- Get finds nothing under the key and elsewhere what it found before.
  pub get-delete :
      (c : Cache z) (now : ℤ) (key : Text)
      → IsValid c
      → (c' : Cache z) × (delete c now key ≡ some (is_some (lookup key c.items), c'))
        × IsValid c'
        × ((t : ℤ) (k : Text) → get c' t k ≡ (if text_eq key k then none else get c t k))
  unfolding get
  get-delete c now key v =
      let (c', e, d) = delete_total c now key v in
      (
        c',
        e,
        d.valid,
        λ t k. ap (read c' t) (d.items k) ∙ elim (Bool-cases (text_eq key k)) [
          | inl same ↦ rw same refl
          | inr other ↦ rw other (read_same c c' t (lookup k c.items) d.same)
        ],
      )

  -- No stale items: each item of the heap is the one that the map has for its key.
  abbrev pub IsFresh : Cache z → Type 0
  IsFresh c =
      (p : ℕ)
      → Holds c.heap p
      → (lookup (c.mem p).key c.items ≡ some p) × (pos 0 <ℤ (c.mem p).expiration)

  -- In the cache that Cleanup of a well-formed cache leaves, an item that expires does so after now.
  pub cleanup_complete :
      (c c' : Cache z) (now : ℤ) (k : Text) (p : ℕ)
      → IsValid c
      → cleanup c now ≡ some c'
      → lookup k c'.items ≡ some p
      → pos 0 <ℤ (c'.mem p).expiration
      → now <ℤ (c'.mem p).expiration
  cleanup_complete c c' now k p v cleaned found alive =
      let (d, e, w) = cleanup_total c now v in
      let same : d ≡ c' = some-injective d c' (sym e ∙ cleaned) in
      let w' : Cleaned c now c' = subst (Cleaned c now) same w in
      w'.later p (w'.valid.tracked k p found alive)

-- ===== src/Cache/Listing.antt =====
-- cache/cache.go: GetAllKeys. `show` is the format %v of a value, and `format` that of a time.
use ant_cache.Base.{
  ℕ, ◌+◌, ◌≡◌, refl, ap, inl, inr, List, [], ◌∷◌, ℤ, pos, negsuc, if◌then◌else◌, Text, codes,
  text_eq, Table, length, ltb_ℤ, Bool-cases, ◌/◌, sub_ℕ, neg_part, pos_part, wrap64,
}
use ant_cache.Item.{CacheItem, Compression, Value, expired}
use ant_cache.Cache.{Cache, keys, keys_from}

pub record KeyInfo (P : Type 0) : Type 0 where
  pub key : Text
  pub type : Text
  pub value : Value P
  pub ttl : ℤ
  pub expires_at : Text
  pub size : ℕ

-- The difference in whole seconds, and 0 for a negative one.
abbrev pub whole_seconds : ℤ → ℤ
whole_seconds (pos n) = pos (n / 1000000000)
whole_seconds (negsuc n) = pos 0

abbrev pub remaining : ℤ → ℤ → ℤ
remaining expiration now =
    if ltb_ℤ (pos 0) expiration
    then whole_seconds
        (wrap64 (sub_ℕ (pos_part expiration + neg_part now) (neg_part expiration + pos_part now)))
    else pos 0

abbrev pub key_info :
    {P : Type 0} → (Value P → Text) → (ℤ → Text) → ℤ → Text → CacheItem P → KeyInfo P
key_info show format now key item = record {
  key = key;
  type = item.type;
  value = item.value;
  ttl = remaining item.expiration now;
  expires_at = if ltb_ℤ (pos 0) item.expiration then format item.expiration else [];
  size = length (show item.value);
}

module _ {z : Compression} (show : Value z.Packed → Text) (format : ℤ → Text) where
  unfoldable pub infos_from : Cache z → ℤ → Table ℕ → List (KeyInfo z.Packed)
  infos_from c now [] = []
  infos_from c now ((key, p) ∷ rest) =
      let more = infos_from c now rest in
      if expired (c.mem p) now then more else key_info show format now key (c.mem p) ∷ more

  unfoldable pub get_all_keys : Cache z → ℤ → List (KeyInfo z.Packed)
  unfolding infos_from
  get_all_keys c now = infos_from c now c.items

abbrev pub listed : {P : Type 0} → List (KeyInfo P) → List Text
listed [] = []
listed (info ∷ infos) = info.key ∷ listed infos

module _ {z : Compression} (show : Value z.Packed → Text) (format : ℤ → Text) where
  infos_from-keys_from :
      (c : Cache z) (now : ℤ) (m : Table ℕ)
      → listed (infos_from show format c now m) ≡ keys_from c now (codes "*") m
  unfolding infos_from keys_from text_eq
  infos_from-keys_from c now [] = refl
  infos_from-keys_from c now ((key, p) ∷ rest) = elim (Bool-cases (expired (c.mem p) now)) [
    | inl gone ↦ rw gone (infos_from-keys_from c now rest)
    | inr kept ↦ rw kept (ap (λ ks. key ∷ ks) (infos_from-keys_from c now rest))
  ]

  -- GetAllKeys lists the keys that Keys gives for the pattern *, in the same order.
  pub get_all_keys-keys :
      (c : Cache z) (now : ℤ) → listed (get_all_keys show format c now) ≡ keys c now (codes "*")
  unfolding get_all_keys keys
  get_all_keys-keys c now = infos_from-keys_from c now c.items

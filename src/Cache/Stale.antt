-- ===== src/Cache/Stale.antt =====
-- cache/cache.go: the item that Set overwrites, in the heap, and Cleanup.
use ant_cache.Base.{
  ◌≡◌, refl, ap, ◌∙◌, arith, ℤ, pos, ltb_ℤ, ◌<ℤ◌, ◌≤ℤ◌, Text, none, some, text_eq_refl,
}
use ant_cache.Item.{Value, Compression, Restores}
use ant_cache.Cache.{Cache, put_item, item_of, expiration_of, logged, set, read, get, cleanup}
use ant_cache.Cache.Items.{add_item-new, add_item-old}
use ant_cache.Cache.Valid.{IsValid, set-IsValid, add_item-heap}
use ant_cache.Cache.Cleaning.{IsDue, cleanup_total}
use ant_cache.Cache.Reads.{get-set}

module _ {z : Compression} where
  -- An item that is due stays due over a later Set of any key.
  IsDue-set :
      (c : Cache z) (now : ℤ) (key : Text) (value : Value z.Packed) (ttl later : ℤ) (k : Text)
      → IsValid c
      → IsDue c later k
      → IsDue (set c now key value ttl) later k
  unfolding set logged put_item
  IsDue-set c now key value ttl later k v (p, held, of_key, due) =
      let old =
        add_item-old c key (item_of c now key value ttl) (ltb_ℤ (pos 0) ttl) p
          (λ e. absurd (omega (arith, v.heaped_used p held))) in
      (
        p,
        (add_item-heap c key (item_of c now key value ttl) (ltb_ℤ (pos 0) ttl) v).1 p held,
        ap (λ item. item.key) old ∙ of_key,
        ground (arith, ap (λ item. item.expiration) old),
      )

  IsDue-new :
      (c : Cache z) (now : ℤ) (key : Text) (value : Value z.Packed) (ttl later : ℤ)
      → IsValid c
      → pos 0 <ℤ ttl
      → expiration_of now ttl ≤ℤ later
      → IsDue (set c now key value ttl) later key
  unfolding set logged put_item
  IsDue-new c now key value ttl later v expiring due =
      let new = add_item-new c key (item_of c now key value ttl) (ltb_ℤ (pos 0) ttl) in
      (
        c.next,
        (add_item-heap c key (item_of c now key value ttl) (ltb_ℤ (pos 0) ttl) v).2 (ground arith),
        ap (λ item. item.key) new,
        ground (arith, ap (λ item. item.expiration) new),
      )

  -- In a well-formed cache, a key that was set to expire and then set anew without expiration is lost:
  -- Get returns the new value at any time before Cleanup, and nothing after the Cleanup at which the
  -- first value is due.
  pub overwritten_lost :
      (c : Cache z) (now : ℤ) (key : Text) (v w : Value z.Packed) (ttl now' later : ℤ)
      → Restores z
      → IsValid c
      → pos 0 <ℤ ttl
      → expiration_of now ttl ≤ℤ later
      → ((t : ℤ) → get (set (set c now key v ttl) now' key w (pos 0)) t key ≡ some w)
        × ((c' : Cache z) × (cleanup (set (set c now key v ttl) now' key w (pos 0)) later ≡ some c')
            × ((t : ℤ) → get c' t key ≡ none))
  unfolding get expiration_of
  overwritten_lost c now key v w ttl now' later restores valid expiring due =
      let c1 = set c now key v ttl in
      let c2 = set c1 now' key w (pos 0) in
      let valid1 = set-IsValid c now key v ttl valid in
      let valid2 = set-IsValid c1 now' key w (pos 0) valid1 in
      let stale =
        IsDue-set c1 now' key w (pos 0) later key valid1
          (IsDue-new c now key v ttl later valid expiring due) in
      let (c', e, cleaned) = cleanup_total c2 later valid2 in
      (
        (λ t. get-set c1 now' key w (pos 0) t key restores valid1 ∙ rw text_eq_refl refl),
        (c', e, λ t. ap (read c' t) (cleaned.gone key stale)),
      )

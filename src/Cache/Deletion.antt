-- ===== src/Cache/Deletion.antt =====
-- cache/cache.go: what Delete does to the map and the heap.
use ant_cache.Base.{
  ℕ, ◌<◌, ◌≡◌, ◌≢◌, refl, ap, ◌∙◌, sym, inl, inr, Bool-cases, Option-cases, arith, ℤ, pos, ◌<ℤ◌,
  Text, none, some, ltb_ℤ, lookup, erase, lookup-erase, text_eq, text_eq_iff, if◌then◌else◌, true,
  false, length, leb, codes, [], is_some,
}
use ant_cache.Item.{Value, Compression}
use ant_cache.Heap.{Heap, len, remove, removed, remove_at}
use ant_cache.Heap.Frame.{SameItems, removed-SameItems}
use ant_cache.Heap.Removal.{Without, removed-Without}
use ant_cache.Cache.{Cache, unheap, delete, delete_found, logged}
use ant_cache.Cache.Valid.{IsValid, logged-IsValid}

module _ {z : Compression} where
  -- An item goes from the heap, and its key from the map.
  pub drop-IsValid :
      (c : Cache z) (p : ℕ) (key : Text) (h : Heap z.Packed)
      → IsValid c
      → (c.mem p).key ≡ key
      → Without c.heap p h
      → SameItems h.mem c.mem
      → IsValid (record c { heap = h; items = erase key c.items })
  drop-IsValid c p key h v of_key w same = record {
    heap = w.valid;
    tracked = λ k q e alive.
        let old = still k q e in
        w.keeps q (v.tracked k q old.0 (ground (arith, ap (λ item. item.expiration) (same q))))
          (λ eq. old.1 (sym of_key ∙ ap (λ a. (c.mem a).key) (sym eq) ∙ v.keyed k q old.0));
    keyed = λ k q e. ap (λ item. item.key) (same q) ∙ v.keyed k q (still k q e).0;
    mapped_used = λ k q e. v.mapped_used k q (still k q e).0;
    heaped_used = λ q x. v.heaped_used q (w.brings q x).0;
  }
    where
      still :
          (k : Text) (q : ℕ)
          → lookup k (erase key c.items) ≡ some q
          → (lookup k c.items ≡ some q) × (key ≢ k)
      still k q e = elim (Bool-cases (text_eq key k)) [
        | inl gone ↦ absurd (ground (arith, lookup-erase key k c.items))
        | inr stays ↦
            (ground (arith, lookup-erase key k c.items), λ eq. ground (arith, text_eq_iff key k))
      ]

  pub erase-IsValid :
      (c : Cache z) (key : Text) → IsValid c → IsValid (record c { items = erase key c.items })
  erase-IsValid c key v = record {
    heap = v.heap;
    tracked = λ k q e. v.tracked k q (still k q e);
    keyed = λ k q e. v.keyed k q (still k q e);
    mapped_used = λ k q e. v.mapped_used k q (still k q e);
    heaped_used = v.heaped_used;
  }
    where
      still : (k : Text) (q : ℕ) → lookup k (erase key c.items) ≡ some q → lookup k c.items ≡ some q
      still k q e = ground (arith, lookup-erase key k c.items)

  unheap_at :
      (c : Cache z) (p i : ℕ)
      → pos 0 <ℤ (c.mem p).expiration
      → (c.mem p).index ≡ pos i
      → i < length c.slice
      → unheap c p ≡ some (record c { heap = (removed c.heap i).1 })
  unfolding unheap remove_at remove len
  unheap_at c p i expiring e hi =
      let due : ltb_ℤ (pos 0) (c.mem p).expiration ≡ true = ground arith in
      let placed : ltb_ℤ (pos i) (pos 0) ≡ false = ground arith in
      let inside : leb (length c.slice) i ≡ false = ground arith in rw (due, e, placed, inside) refl

  -- Taking a mapped item off the heap succeeds: its index is the position at which it stands.
  pub unheap_total :
      (c : Cache z) (key : Text) (p : ℕ)
      → IsValid c
      → lookup key c.items ≡ some p
      → (h : Heap z.Packed) × (unheap c p ≡ some (record c { heap = h }))
        × IsValid (record c { heap = h; items = erase key c.items })
        × SameItems h.mem c.mem
  unfolding unheap
  unheap_total c key p v e = elim (Bool-cases (ltb_ℤ (pos 0) (c.mem p).expiration)) [
    | inl expiring ↦
        let (i, hi, there) = v.tracked key p e (ground arith) in
        let at_index : (c.mem p).index ≡ pos i = rw there at (v.heap.indexed i hi) in
        let w = rw there at (removed-Without c.heap i v.heap hi).1 in
        (
          (removed c.heap i).1,
          unheap_at c p i (ground arith) at_index hi,
          drop-IsValid c p key _ v (v.keyed key p e) w (removed-SameItems c.heap i),
          removed-SameItems c.heap i,
        )
    | inr lasting ↦ (c.heap, rw lasting refl, erase-IsValid c key v, λ q. refl)
  ]

  -- What Delete leaves: a well-formed cache whose map is the old one without the key, and whose
  -- items are as they were but for their positions in the heap.
  pub record Deleted (c : Cache z) (key : Text) (c' : Cache z) : Type 0 where
    pub valid : IsValid c'
    pub items : (k : Text) → lookup k c'.items ≡ (if text_eq key k then none else lookup k c.items)
    pub same : SameItems c'.mem c.mem

  -- In a well-formed cache Delete returns, never panics, and reports whether the map had the key; it
  -- takes exactly that key out of the map and leaves the cache well formed.
  pub delete_total :
      (c : Cache z) (now : ℤ) (key : Text)
      → IsValid c
      → (c' : Cache z) × (delete c now key ≡ some (is_some (lookup key c.items), c'))
        × Deleted c key c'
  unfolding delete
  delete_total c now key v = elim (Option-cases (lookup key c.items)) [
    | inl absent ↦ (
      c,
      rw absent refl,
      record {
        valid = v;
        items = λ k. ground (arith, absent, text_eq_iff key k, ap (λ j. lookup j c.items));
        same = λ q. refl;
      },
    )
    | inr (p, found) ↦
        let (h, e, valid, same) = unheap_total c key p v found in
        let c1 = record c { heap = h; items = erase key c.items } in
        (
          logged c1 now (codes "DEL") key (Value.str []) (pos 0),
          rw (found, e, delete_found) refl,
          record {
            valid = logged-IsValid c1 now (codes "DEL") key (Value.str []) (pos 0) valid;
            items = λ k. unfold logged in lookup-erase key k c.items;
            same = unfold logged in same;
          },
        )
  ]

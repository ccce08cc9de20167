-- ===== src/Cache/Batch/Refinement.antt =====
-- cache/cache.go: BatchExecute does what its specification on the map says.
use ant_cache.Base.{
  ◌≤ℤ◌, ℕ, ◌≡◌, refl, sym, ap, ◌∙◌, inl, inr, Bool, true, ◌||◌, Option, none, some, ◌∷◌, arith, ℤ,
  pos, Text, codes, text_eq, lookup, erase, ltb_ℤ, Bool-cases, Option-cases, lookup-erase,
  text_eq_iff,
}
use ant_cache.Item.{Value, nil, Compression}
use ant_cache.Heap.{Heap}
use ant_cache.Heap.Frame.{SameItems}
use ant_cache.Cache.{Cache, expiration_of}
use ant_cache.Cache.Batch.{
  BatchOperation, BatchResult, succeeded, failed, is_zero, batch_set, batch_drop, batch_get_found,
  batch_del_found, batch_step,
}
use ant_cache.Cache.Batch.Pooled.{IsPooled}
use ant_cache.Cache.Batch.Release.{recycle_total, release-IsPooled}
use ant_cache.Cache.Batch.View.{
  View, view, put, seen, seen_same, unexpired, answer, removal, view_step,
}
use ant_cache.Cache.Batch.Setting.{IsTimely}
use ant_cache.Cache.Batch.Entering.{set_pooled_total}

-- A SET of the batch expires at a time that is an int64.
abbrev pub IsTimelyOperation : {P : Type 0} → ℤ → BatchOperation P → Type 0
IsTimelyOperation now op = IsTimely now op.ttl

module _ {P : Type 0} where
  put_at : (m : View P) (key : Text) (k : Text) → put m key (m key) k ≡ m k
  put_at m key k = elim (Bool-cases (text_eq key k)) [
    | inl same ↦ rw same (ap m ((text_eq_iff key k).0 same))
    | inr other ↦ rw other refl
  ]

  put_same : (m : View P) (key : Text) (o : Option (Value P × ℤ)) → m key ≡ o → put m key o ≡ m
  put_same m key o e = ap (put m key) (sym e) ∙ (λ i k. put_at m key k i)

-- The operation returns the result, and the cache then shows the view that the specification gives.
abbrev pub Answers :
    {z : Compression} → {A : Type 0} → Option (A × Cache z) → A × View z.Packed → Type 0
Answers {z = z} r spec = (c' : Cache z) × (r ≡ some (spec.0, c')) × IsPooled c' × (view c' ≡ spec.1)

module _ {z : Compression} (c : Cache z) (w : IsPooled c) (key : Text) where
  dropped_at :
      (h : Heap z.Packed) (k : Text)
      → SameItems h.mem c.mem
      → seen h.mem (lookup k (erase key c.items)) ≡ put (view c) key none k
  dropped_at h k same =
      ap (seen h.mem) (lookup-erase key k c.items) ∙ elim (Bool-cases (text_eq key k)) [
        | inl eq ↦ rw eq refl
        | inr other ↦ rw other (seen_same h.mem c.mem (lookup k c.items) (λ q e. same q))
      ]

  drop_Answers :
      (p : ℕ) (heaped : Bool) (result : BatchResult z.Packed)
      → lookup key c.items ≡ some p
      → heaped ≡ ltb_ℤ (pos 0) (c.mem p).expiration
      → Answers (batch_drop c p key heaped result) (result, put (view c) key none)
  unfolding batch_drop
  drop_Answers p heaped result found flag =
      let (h, e, l) = recycle_total c w key p found (erase key c.items) in
      (
        record c { items = erase key c.items; heap = h; item_pool = p ∷ c.item_pool },
        rw (flag, batch_drop, e) refl,
        release-IsPooled c w key p found h l,
        λ i k. dropped_at h k l.same i,
      )

  get_Answers :
      (now : ℤ)
      → pos 0 ≤ℤ now
      → Answers
          (batch_get_found c now key (lookup key c.items))
          (answer (unexpired now (view c key)), put (view c) key (unexpired now (view c key)))
  unfolding batch_get_found
  get_Answers now late = elim (Option-cases (lookup key c.items)) [
    | inl absent ↦ rw absent (c, refl, w, sym (put_same (view c) key none (ap (seen c.mem) absent)))
    | inr (p, found) ↦
        let e = (c.mem p).expiration in
        let there : view c key ≡ some ((c.mem p).value, e) = ap (seen c.mem) found in
        elim (Bool-cases (is_zero e || ltb_ℤ now e)) [
          | inl live ↦ rw (found, live) (c, refl, w, sym (put_same (view c) key _ there))
          | inr due ↦
              let flag : true ≡ ltb_ℤ (pos 0) e = ground (arith, w.map_timed key p found) in
              rw (found, due) (drop_Answers p true (failed (codes "key not found")) found flag)
        ]
  ]

  del_Answers :
      Answers
        (batch_del_found c key (lookup key c.items))
        (removal (view c key), put (view c) key none)
  unfolding batch_del_found
  del_Answers = elim (Option-cases (lookup key c.items)) [
    | inl absent ↦ rw absent (c, refl, w, sym (put_same (view c) key none (ap (seen c.mem) absent)))
    | inr (p, found) ↦ rw found (drop_Answers p _ (succeeded nil) found refl)
  ]

module _ {z : Compression} (now : ℤ) where
  set_Answers :
      (c : Cache z) (pick : ℕ) (op : BatchOperation z.Packed)
      → IsPooled c
      → IsTimelyOperation now op
      → Answers
          (batch_set c pick now op)
          (succeeded nil, put (view c) op.key (some (op.value, expiration_of now op.ttl)))
  unfolding batch_set
  set_Answers c pick op w fits =
      let (c', e, w', shown) = set_pooled_total c pick now op.key op.value op.ttl w fits in
      (c', rw (batch_set, e) refl, w', shown)

  -- Each operation of a batch does what the specification says, whatever item the pool hands out.
  pub batch_step-Answers :
      (c : Cache z) (pick : ℕ) (op : BatchOperation z.Packed)
      → IsPooled c
      → IsTimelyOperation now op
      → Answers (batch_step c pick now op) (view_step now (view c) op)
  unfolding batch_step
  batch_step-Answers c pick op w fits = elim (Bool-cases (text_eq op.type (codes "SET"))) [
    | inl sets ↦ rw sets (set_Answers c pick op w fits)
    | inr no_set ↦ elim (Bool-cases (text_eq op.type (codes "GET"))) [
      | inl gets ↦ rw (no_set, gets) (get_Answers c w op.key now fits.0)
      | inr no_get ↦ elim (Bool-cases (text_eq op.type (codes "DEL"))) [
        | inl dels ↦ rw (no_set, no_get, dels) (del_Answers c w op.key)
        | inr unknown ↦ rw (no_set, no_get, unknown) (c, refl, w, refl)
      ]
    ]
  ]

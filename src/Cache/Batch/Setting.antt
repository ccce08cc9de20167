-- ===== src/Cache/Batch/Setting.antt =====
-- cache/cache.go: OptimizedSet, and the SET of BatchExecute.
use ant_cache.Base.{
  ℕ, ◌≡◌, refl, ap, ◌∙◌, ◌≢◌, inl, inr, true, false, some, arith, ℤ, pos, Text, lookup, ltb_ℤ,
  Bool-cases, ◌<ℤ◌, ◌≤ℤ◌, IsInt64, ◌+ℤ◌, wrap64_id,
}
use ant_cache.Item.{Value, CacheItem, Compression, update, strip}
use ant_cache.Heap.{push}
use ant_cache.Heap.Frame.{push-SameItems}
use ant_cache.Heap.Rearrange.{Holds}
use ant_cache.Cache.{Cache, expiration_of}
use ant_cache.Cache.Batch.{write_item, build_item, pooled_item}
use ant_cache.Cache.Batch.Pooled.{IsPooled, IsSpare, IsSpare-heap, write-IsPooled, push-IsPooled}
use ant_cache.Cache.Batch.Recycling.{Gets}

-- The clock is not before 1970, and the time at which an item expires is an int64.
abbrev pub IsTimely : ℤ → ℤ → Type 0
IsTimely now ttl = (pos 0 ≤ℤ now) × IsInt64 (now +ℤ ttl)

timely :
    (now ttl : ℤ) → IsTimely now ttl → ltb_ℤ (pos 0) ttl ≡ true → pos 0 <ℤ expiration_of now ttl
unfolding expiration_of
timely now ttl (late, fits) h = rw (h, wrap64_id (now +ℤ ttl) fits) (unfold ◌+ℤ◌ in ground arith)

lasting : (now ttl : ℤ) → ltb_ℤ (pos 0) ttl ≡ false → expiration_of now ttl ≡ pos 0
unfolding expiration_of
lasting now ttl h = rw h refl

module _ {z : Compression} (c : Cache z) where
  -- The new item is built: nobody has it, and it stands in the heap if it expires.
  pub record Built (p : ℕ) (item : CacheItem z.Packed) (c' : Cache z) : Type 0 where
    pub pooled : IsPooled c'
    pub spare : IsSpare c' p
    pub items : c'.items ≡ c.items
    pub new : strip (c'.mem p) ≡ strip item
    pub heaped : pos 0 <ℤ (c'.mem p).expiration → Holds c'.heap p
    pub kept : (k : Text) (q : ℕ) → lookup k c.items ≡ some q → strip (c'.mem q) ≡ strip (c.mem q)

  pub build_item-Built :
      (w : IsPooled c) (p : ℕ) (c1 : Cache z) (now : ℤ) (key : Text) (value : Value z.Packed)
      (ttl : ℤ)
      → IsTimely now ttl
      → Gets c w p c1
      → Built p (pooled_item now key value ttl) (build_item c1 p now key value ttl)
  unfolding build_item write_item
  build_item-Built w p c1 now key value ttl fits g =
      let item = pooled_item now key value ttl in
      let c2 : Cache z = record c1 { heap = record c1.heap { mem = update c1.mem p item } } in
      let pooled : IsPooled c2 =
        unfold write_item in write-IsPooled c1 g.pooled p item g.spare g.unheaped in
      let spare : IsSpare c2 p = IsSpare-heap c1 p c2.heap g.spare in
      let new : c2.mem p ≡ item = ground arith in
      let kept : (k : Text) (q : ℕ)
          → lookup k c.items ≡ some q
          → strip (c2.mem q) ≡ strip (c.mem q) =
        λ k q e.
          let ne : q ≢ p = g.spare.unmapped k q (rw g.items e) in
          let old : c2.mem q ≡ c1.mem q = ground arith in ap strip (old ∙ g.kept k q e) in
      elim (Bool-cases (ltb_ℤ (pos 0) ttl)) [
        | inl expiring ↦
            let time : pos 0 <ℤ (c2.mem p).expiration = rw new (timely now ttl fits expiring) in
            let (pushed, held) = push-IsPooled c2 pooled p spare g.unheaped time in
            let same = push-SameItems c2.heap p in
            rw expiring record {
              pooled = pushed;
              spare = IsSpare-heap c2 p (push c2.heap p) spare;
              items = g.items;
              new = same p ∙ ap strip new;
              heaped = λ alive. held;
              kept = λ k q e. same q ∙ kept k q e;
            }
        | inr forever ↦ rw forever record {
          pooled = pooled;
          spare = spare;
          items = g.items;
          new = ap strip new;
          heaped = λ alive. absurd (ground (arith, new, lasting now ttl forever));
          kept = kept;
        }
      ]

pub expiration_of_nonneg : (now ttl : ℤ) → IsTimely now ttl → pos 0 ≤ℤ expiration_of now ttl
expiration_of_nonneg now ttl fits = elim (Bool-cases (ltb_ℤ (pos 0) ttl)) [
  | inl expiring ↦ let h = timely now ttl fits expiring in omega arith
  | inr forever ↦ rw (lasting now ttl forever) (omega arith)
]

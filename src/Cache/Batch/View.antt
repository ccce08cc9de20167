-- ===== src/Cache/Batch/View.antt =====
-- cache/cache.go: what a batch promises, on the map from keys to values and expirations: an operation
-- at a time, with no heap, no pool and no items.
use ant_cache.Base.{
  ℕ, ◌≡◌, refl, ap, ◌||◌, Option, none, some, List, [], ◌∷◌, ℤ, if◌then◌else◌, Text, codes, text_eq,
  lookup, ltb_ℤ,
}
use ant_cache.Item.{Value, nil, Compression, Memory, strip}
use ant_cache.Cache.{Cache, expiration_of}
use ant_cache.Cache.Batch.{BatchOperation, BatchResult, succeeded, failed, is_zero}

abbrev pub View : Type 0 → Type 0
View P = Text → Option (Value P × ℤ)

abbrev pub seen : {P : Type 0} → Memory P → Option ℕ → Option (Value P × ℤ)
seen mem none = none
seen mem (some p) = some ((mem p).value, (mem p).expiration)

abbrev pub view : {z : Compression} → Cache z → View z.Packed
view c k = seen c.mem (lookup k c.items)

-- The view with another entry for a key.
abbrev pub put : {P : Type 0} → View P → Text → Option (Value P × ℤ) → View P
put m key entry k = if text_eq key k then entry else m k

-- An entry that the batch takes as live at `now`.
abbrev pub unexpired : {P : Type 0} → ℤ → Option (Value P × ℤ) → Option (Value P × ℤ)
unexpired now none = none
unexpired now (some (v, e)) = if is_zero e || ltb_ℤ now e then some (v, e) else none

abbrev pub answer : {P : Type 0} → Option (Value P × ℤ) → BatchResult P
answer none = failed (codes "key not found")
answer (some (v, _)) = succeeded v

abbrev pub removal : {P : Type 0} → Option (Value P × ℤ) → BatchResult P
removal none = failed (codes "key not found")
removal (some _) = succeeded nil

abbrev pub view_step : {P : Type 0} → ℤ → View P → BatchOperation P → BatchResult P × View P
view_step now m op =
    if text_eq op.type (codes "SET")
    then (succeeded nil, put m op.key (some (op.value, expiration_of now op.ttl)))
    else if text_eq op.type (codes "GET")
    then (answer (unexpired now (m op.key)), put m op.key (unexpired now (m op.key)))
    else if text_eq op.type (codes "DEL")
    then (removal (m op.key), put m op.key none)
    else (failed (codes "unknown operation"), m)

abbrev pub view_batch :
    {P : Type 0} → ℤ → View P → List (BatchOperation P) → List (BatchResult P) × View P
view_batch now m [] = ([], m)
view_batch now m (op ∷ ops) =
    let (result, m1) = view_step now m op in
    let (results, m2) = view_batch now m1 ops in (result ∷ results, m2)

pub seen_same :
    {P : Type 0} (a b : Memory P) (o : Option ℕ)
    → ((p : ℕ) → o ≡ some p → strip (a p) ≡ strip (b p))
    → seen a o ≡ seen b o
seen_same a b none same = refl
seen_same a b (some p) same = ap (λ item. some (item.value, item.expiration)) (same p refl)

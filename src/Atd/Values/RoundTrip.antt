-- ===== src/Atd/Values/RoundTrip.antt =====
-- cache/persistence.go: writeAtdValue followed by readAtdValue.
use ant_cache.Base.{
  ◌<◌, ◌^◌, ◌≡◌, refl, sym, ap, ◌∙◌, arith, List, [], ◌∷◌, ◌++◌, none, some, Text, length, Table,
  lookup, insert, text_eq_iff, All, lookup-insert,
}
use mathlib.Core.List.{append_assoc, append-nil}
use ant_cache.Item.{Value, nil, str, array, object, other}
use ant_cache.Atd.Bytes.{read_byte, read_full, read_u16, read_u32, write_u16, write_u32}
use ant_cache.Atd.Bytes.RoundTrip.{
  Reads, Reads-bind, Reads-map, read_byte-Reads, read_full-Reads, read_u16-Reads, read_u32-Reads,
}
use ant_cache.Atd.Values.{
  write_string16, write_string32, write_strings, write_pairs, write_atd_value, read_string16,
  read_string32, read_strings, read_pairs, read_value_of, read_atd_value,
}

abbrev pub FitsU16 : Text → Type 0
FitsU16 s = length s < 2 ^ 16

abbrev FitsPair : Text × Text → Type 0
FitsPair (k, s) = FitsU16 k × FitsU16 s

-- No key stands twice, as in a Go map.
abbrev pub IsMap : {V : Type 0} → Table V → Type 0
IsMap [] = Unit {0}
IsMap ((k, v) ∷ m) = (lookup k m ≡ none) × IsMap m

-- A string, an array or an object whose lengths fit the fields they are written to.
abbrev pub IsWritable : {P : Type 0} → Value P → Type 0
IsWritable (str v) = length v < 2 ^ 32
IsWritable (array v) = (length v < 2 ^ 16) × All FitsU16 v
IsWritable (object v) = (length v < 2 ^ 16) × (All FitsPair v × IsMap v)
IsWritable (other p) = ⊥
IsWritable nil = ⊥

pub read_string16-Reads : (s : Text) → FitsU16 s → Reads read_string16 (write_string16 s) s
unfolding read_string16 write_string16
read_string16-Reads s h =
    Reads-bind read_u16 read_full (write_u16 (length s)) s (length s) s
      (read_u16-Reads (length s) h) (read_full-Reads s)

read_string32-Reads : (s : Text) → length s < 2 ^ 32 → Reads read_string32 (write_string32 s) s
unfolding read_string32 write_string32
read_string32-Reads s h =
    Reads-bind read_u32 read_full (write_u32 (length s)) s (length s) s
      (read_u32-Reads (length s) h) (read_full-Reads s)

read_strings-Reads :
    (v : List Text) → All FitsU16 v → Reads (read_strings (length v)) (write_strings v) v
unfolding read_strings write_strings
read_strings-Reads [] h = λ rest. refl
read_strings-Reads (s ∷ v) (hs, hv) =
    Reads-bind read_string16 _ (write_string16 s) (write_strings v) s _ (read_string16-Reads s hs)
      (Reads-map (read_strings (length v)) (◌∷◌ s) (write_strings v) v (read_strings-Reads v hv))

insert_fresh : (k s : Text) (m : Table Text) → lookup k m ≡ none → insert k s m ≡ m ++ (k, s) ∷ []
unfolding insert lookup
insert_fresh k s [] h = refl
insert_fresh k s ((j, w) ∷ m) h = ground (arith, insert_fresh k s m)

-- None of the keys of the first map is in the second.
abbrev Apart : Table Text → Table Text → Type 0
Apart v m = All (λ (k, s). lookup k m ≡ none) v

Apart-insert :
    (k s : Text) (v m : Table Text) → lookup k v ≡ none → Apart v m → Apart v (insert k s m)
unfolding lookup
Apart-insert k s [] m h a = tt
Apart-insert k s ((j, w) ∷ v) m h (aj, av) = (
  ground (arith, lookup-insert k j s m, text_eq_iff j k, text_eq_iff k j),
  Apart-insert k s v m (ground arith) av,
)

Apart-empty : (v : Table Text) → Apart v []
unfolding lookup
Apart-empty [] = tt
Apart-empty (x ∷ v) = (refl, Apart-empty v)

read_pairs-Reads :
    (v m : Table Text)
    → All FitsPair v
    → IsMap v
    → Apart v m
    → Reads (read_pairs (length v) m) (write_pairs v) (m ++ v)
unfolding read_pairs write_pairs
read_pairs-Reads [] m h d a = λ rest. ap (λ u. some (u, rest)) (sym (append-nil m))
read_pairs-Reads ((k, s) ∷ v) m ((hk, hs), hv) (dk, dv) (ak, av) =
    let joined : insert k s m ++ v ≡ m ++ (k, s) ∷ v =
      ap (λ u. u ++ v) (insert_fresh k s m ak) ∙ append_assoc m _ v in
    let next : Reads (read_pairs (length v) (insert k s m)) (write_pairs v) (m ++ (k, s) ∷ v) =
      λ rest.
        read_pairs-Reads v (insert k s m) hv dv (Apart-insert k s v m dk av) rest
        ∙ ap (λ u. some (u, rest)) joined in
    Reads-bind read_string16 _ (write_string16 k) (write_string16 s ++ write_pairs v) k _
      (read_string16-Reads k hk)
      (Reads-bind read_string16 _ (write_string16 s) (write_pairs v) s _ (read_string16-Reads s hs)
        next)

-- readAtdValue takes exactly the bytes that writeAtdValue wrote, whatever follows them, and gives the
-- value back, where that is a string, an array or an object with distinct keys whose lengths fit their
-- fields; not for nil and for compressed values, which come back as strings.
pub read_atd_value-Reads :
    {P : Type 0} (show : P → Text) (v : Value P)
    → IsWritable v
    → Reads read_atd_value (write_atd_value show v) v
unfolding read_atd_value write_atd_value read_value_of
read_atd_value-Reads show (str v) h =
    Reads-bind read_byte read_value_of (1 ∷ []) (write_string32 v) 1 _ (read_byte-Reads 1)
      (Reads-map read_string32 str (write_string32 v) v (read_string32-Reads v h))
read_atd_value-Reads show (array v) (n, h) =
    Reads-bind read_byte read_value_of (2 ∷ []) _ 2 _ (read_byte-Reads 2) (
      Reads-bind read_u16 _ (write_u16 (length v)) _ (length v) _ (read_u16-Reads (length v) n)
        (Reads-map (read_strings (length v)) array (write_strings v) v (read_strings-Reads v h)))
read_atd_value-Reads show (object v) (n, (h, d)) =
    Reads-bind read_byte read_value_of (3 ∷ []) _ 3 _ (read_byte-Reads 3) (
      Reads-bind read_u16 _ (write_u16 (length v)) _ (length v) _ (read_u16-Reads (length v) n) (
        Reads-map (read_pairs (length v) []) object (write_pairs v) v
          (read_pairs-Reads v [] h d (Apart-empty v))))
read_atd_value-Reads show (other p) h = elim h [ ]
read_atd_value-Reads show nil h = elim h [ ]

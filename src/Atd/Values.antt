-- ===== src/Atd/Values.antt =====
-- cache/persistence.go: writeAtdValue and readAtdValue.
pub mod RoundTrip
use ant_cache.Base.{
  ℕ, zero, suc, Bool, List, [], ◌∷◌, ◌++◌, Text, codes, length, Table, insert, ◌==◌, ◌%◌, ◌^◌,
  if◌then◌else◌,
}
use ant_cache.Item.{Value, nil, str, array, object, other}
use ant_cache.Atd.Bytes.{
  Reader, ◌>>=◌, return, failure, read_byte, read_full, read_u16, read_u32, write_u16, write_u32,
}

-- A string behind its length, as 16 and as 32 bits.
unfoldable pub write_string16 : Text → Text
write_string16 s = write_u16 (length s) ++ s

unfoldable pub write_string32 : Text → Text
write_string32 s = write_u32 (length s) ++ s

unfoldable pub write_strings : List Text → Text
write_strings [] = []
write_strings (s ∷ v) = write_string16 s ++ write_strings v

unfoldable pub write_pairs : Table Text → Text
write_pairs [] = []
write_pairs ((k, s) ∷ v) = write_string16 k ++ (write_string16 s ++ write_pairs v)

-- `show` is the format %v of a value that is neither a string, an array nor an object.
unfoldable pub write_atd_value : {P : Type 0} → (P → Text) → Value P → Text
write_atd_value show (str v) = (1 ∷ []) ++ write_string32 v
write_atd_value show (array v) = (2 ∷ []) ++ (write_u16 (length v) ++ write_strings v)
write_atd_value show (object v) = (3 ∷ []) ++ (write_u16 (length v) ++ write_pairs v)
write_atd_value show (other p) = (1 ∷ []) ++ write_string32 (show p)
write_atd_value show nil = (1 ∷ []) ++ write_string32 (codes "<nil>")

unfoldable pub read_string16 : Reader Text
read_string16 = read_u16 >>= read_full

unfoldable pub read_string32 : Reader Text
read_string32 = read_u32 >>= read_full

-- The loop that fills the array, from the element at which it stands.
unfoldable pub read_strings : ℕ → Reader (List Text)
read_strings zero = return []
read_strings (suc n) = do s ← read_string16; v ← read_strings n; return (s ∷ v)

unfoldable pub read_pairs : ℕ → Table Text → Reader (Table Text)
read_pairs zero m = return m
read_pairs (suc n) m = do k ← read_string16; s ← read_string16; read_pairs n (insert k s m)

abbrev pub read_array : {P : Type 0} → Reader (Value P)
read_array = do n ← read_u16; v ← read_strings n; return (array v)

abbrev pub read_object : {P : Type 0} → Reader (Value P)
read_object = do n ← read_u16; v ← read_pairs n []; return (object v)

unfoldable pub read_value_of : {P : Type 0} → ℕ → Reader (Value P)
read_value_of value_type =
    if value_type == 1
    then (read_string32 >>= λ v. return (str v))
    else if value_type == 2
    then read_array
    else if value_type == 3
    then read_object
    else failure

unfoldable pub read_atd_value : {P : Type 0} → Reader (Value P)
read_atd_value = read_byte >>= read_value_of

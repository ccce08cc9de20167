-- ===== src/Strings.antt =====
-- The functions of Go's strings, strconv and bufio packages that the command log uses, on byte
-- strings: Split, SplitN, Fields, Contains, HasPrefix, HasSuffix, Trim; the format %d; ScanLines.
pub mod Split
pub mod Fields
pub mod Decimal
pub mod Lines
use ant_cache.Base.{
  ℕ, zero, suc, ◌+◌, Bool, true, false, List, [], ◌∷◌, ◌++◌, Option, none, some, Text, length, leb,
  ◌==◌, ◌||◌, is_some, ltb, ◌/◌, ◌%◌, ℤ, pos, negsuc, if◌then◌else◌,
}
use mathlib.Core.List.{reverse}
use ant_cache.Utils.Quotes.{flush, after_any, after_prefix, space_runes}

-- A byte in front of the first piece.
abbrev pub onto_head : ℕ → List Text → List Text
onto_head c [] = (c ∷ []) ∷ []
onto_head c (w ∷ ws) = (c ∷ w) ∷ ws

-- strings.Split at a separator of one byte.
unfoldable pub split : ℕ → Text → List Text
split sep [] = [] ∷ []
split sep (c ∷ s) = let rest = split sep s in if c == sep then [] ∷ rest else onto_head c rest

-- strings.SplitN(s, sep, 2), where the separator is there.
abbrev pub onto_first : ℕ → Option (Text × Text) → Option (Text × Text)
onto_first c none = none
onto_first c (some (a, b)) = some (c ∷ a, b)

unfoldable pub cut : ℕ → Text → Option (Text × Text)
cut sep [] = none
cut sep (c ∷ s) = let rest = cut sep s in if c == sep then some ([], s) else onto_first c rest

abbrev pub contains : ℕ → Text → Bool
contains sep s = is_some (cut sep s)

unfoldable pub has_prefix : Text → Text → Bool
unfolding after_prefix
has_prefix p s = is_some (after_prefix p s)

unfoldable pub has_suffix : Text → Text → Bool
unfolding after_prefix
has_suffix p s = is_some (after_prefix (reverse p) (reverse s))

abbrev pub or_same : Text → Option Text → Text
or_same s none = s
or_same s (some rest) = rest

abbrev pub back : Text → Option Text → Text
back s none = s
back s (some rest) = reverse rest

unfoldable pub trim_prefix : Text → Text → Text
unfolding after_prefix
trim_prefix p s = or_same s (after_prefix p s)

unfoldable pub trim_suffix : Text → Text → Text
unfolding after_prefix
trim_suffix p s = back s (after_prefix (reverse p) (reverse s))

-- strings.Trim by a set of ASCII bytes.
unfoldable pub trim_left_set : (ℕ → Bool) → Text → Text
trim_left_set cutset [] = []
trim_left_set cutset (c ∷ s) = let rest = trim_left_set cutset s in if cutset c then rest else c ∷ s

unfoldable pub trim_set : (ℕ → Bool) → Text → Text
unfolding trim_left_set
trim_set cutset s = reverse (trim_left_set cutset (reverse (trim_left_set cutset s)))

-- strings.Fields: each round takes a byte at least.
unfoldable pub fields_from : ℕ → List Text → Text → Text → List Text
fields_from zero parts current s = flush parts current
fields_from (suc k) parts current [] = flush parts current
fields_from (suc k) parts current (c ∷ s) = elim (after_any space_runes (c ∷ s)) [
  | some rest ↦ fields_from k (flush parts current) [] rest
  | none ↦ fields_from k parts (current ++ c ∷ []) s
]

unfoldable pub fields : Text → List Text
unfolding fields_from after_any
fields s = fields_from (suc (length s)) [] [] s

-- bufio.ScanLines drops a carriage return before the newline, and an empty last line.
abbrev pub drop_cr : Text → Text
drop_cr s = back s (after_prefix (13 ∷ []) (reverse s))

-- A bufio.Scanner stops with an error at a line of more than 65535 bytes; `false` stands for it.
abbrev pub onto_lines : Text → List Text × Bool → List Text × Bool
onto_lines s (lines, ok) = (drop_cr s ∷ lines, ok)

unfoldable pub scan_pieces : List Text → List Text × Bool
unfolding after_prefix
scan_pieces [] = ([], true)
scan_pieces ([] ∷ []) = ([], true)
scan_pieces (s ∷ pieces) =
    let more = scan_pieces pieces in if leb (length s) 65535 then onto_lines s more else ([], false)

unfoldable pub scan_lines : Text → List Text × Bool
unfolding split scan_pieces
scan_lines file = scan_pieces (split 10 file)

-- The digits of a number: each round takes one away, so `suc n` rounds are enough.
unfoldable pub show_digits : ℕ → ℕ → Text
show_digits zero n = []
show_digits (suc k) n =
    let more = show_digits k (n / 10) in
    if ltb n 10 then (b'0' + n) ∷ [] else more ++ (b'0' + n % 10) ∷ []

-- The format %d.
unfoldable pub show_int : ℤ → Text
unfolding show_digits
show_int (pos n) = show_digits (suc n) n
show_int (negsuc n) = b'-' ∷ show_digits (suc (n + 1)) (n + 1)

-- ===== src/Log.antt =====
-- cache/persistence.go: the lines of the command log (ACL): how writeCommandToAcl and
-- compactAclFiles write a command and how LoadAcl and compactAclFiles read it.
pub mod Files
pub mod Replay
pub mod Compact
pub mod Lines
pub mod Values
pub mod Restart
pub mod Restored
pub mod Merging
pub mod Writing
pub mod Durability
pub mod Overlay
pub mod Recovery
use ant_cache.Base.{
  ℕ, zero, suc, ◌+◌, ◌^◌, ℤ, pos, negsuc, Bool, true, false, ◌&&◌, ◌||◌, List, [], ◌∷◌, ◌++◌,
  Option, none, some, Text, codes, text_eq, Table, insert, join, ◌==◌, is_some, if◌then◌else◌, ◌-◌,
}
use ant_cache.Item.{Value, nil, str, array, object, other}
use ant_cache.Persistence.{Command}
use ant_cache.Strings.{
  split, cut, contains, has_prefix, has_suffix, trim_prefix, trim_suffix, trim_set, fields,
  show_int,
}
use ant_cache.Utils.Quotes.{trim_space}
use ant_cache.Utils.Ttl.{atoi, digits_value}

abbrev pub bar : ℕ
bar = b'|'

-- `k:v` for each pair, in the order of the map.
abbrev pub pair_texts : Table Text → List Text
pair_texts [] = []
pair_texts ((k, v) ∷ m) = (k ++ b':' ∷ v) ∷ pair_texts m

-- The pairs that hold a colon are entered, each split at its first one.
unfoldable pub pairs_of : Table Text → List Text → Table Text
pairs_of m [] = m
pairs_of m (pair ∷ pairs) =
    pairs_of (elim (cut b':' pair) [ some (k, v) ↦ insert k v m | none ↦ m ]) pairs

abbrev pub is_bracket : ℕ → Bool
is_bracket c = c == b'[' || c == b']'

-- compactAclFiles takes what ParseInt returns beside an error: 0 for a text that is no number, and
-- the nearest int64 for a number that is none.
abbrev pub nearest : Text → ℤ
nearest [] = pos 0
nearest (c ∷ s) =
    if c == b'-'
    then (if is_some (digits_value s) then negsuc (2 ^ 63 - 1) else pos 0)
    else if c == b'+'
    then (if is_some (digits_value s) then pos (2 ^ 63 - 1) else pos 0)
    else if is_some (digits_value (c ∷ s))
    then pos (2 ^ 63 - 1)
    else pos 0

unfoldable pub parse_int : Text → ℤ
parse_int s = elim (atoi s) [ some n ↦ n | none ↦ nearest s ]

module _ {P : Type 0} where
  -- The switch that formats the value; `show` is the format %v of other values.
  unfoldable pub show_value : (P → Text) → Value P → Text
  show_value show (array v) = b'[' ∷ join v ++ codes "]"
  show_value show (object m) = codes "map[" ++ (join (pair_texts m) ++ codes "]")
  show_value show (str s) = s
  show_value show (other p) = show p
  show_value show nil = codes "<nil>"

  -- The line of a command, without its newline.
  unfoldable pub show_command : (P → Text) → Command P → Text
  unfolding show_value
  show_command show cmd =
      show_int cmd.timestamp
      ++ bar
        ∷ (cmd.type
            ++ bar ∷ (cmd.key ++ bar ∷ (show_value show cmd.value ++ bar ∷ show_int cmd.ttl)))

  unfoldable pub array_of : Text → Value P
  array_of content = if text_eq content [] then array [] else array (fields content)

  unfoldable pub parse_value : Text → Value P
  unfolding array_of pairs_of
  parse_value s =
      if has_prefix (codes "[") s && has_suffix (codes "]") s
      then array_of (trim_set is_bracket s)
      else if has_prefix (codes "map[") s && contains b':' s
      then object (pairs_of [] (fields (trim_suffix (codes "]") (trim_prefix (codes "map[") s))))
      else str s

  abbrev pub command_of : Option ℤ → Text → Text → Text → Option ℤ → Option (Command P)
  command_of (some timestamp) type key value (some ttl) = some (record {
    timestamp = timestamp;
    type = type;
    key = key;
    value = parse_value value;
    ttl = ttl;
  })
  command_of _ type key value _ = none

  abbrev pub parse_parts : List Text → Option (Command P)
  parse_parts (timestamp ∷ type ∷ key ∷ value ∷ ttl ∷ []) =
      command_of (atoi timestamp) type key value (atoi ttl)
  parse_parts _ = none

  -- LoadAcl: `none` is a line that is skipped.
  unfoldable pub parse_line : Text → Option (Command P)
  unfolding parse_value
  parse_line s =
      let line = trim_space s in if text_eq line [] then none else parse_parts (split bar line)

  abbrev pub compact_parts : List Text → Option (Command P)
  compact_parts (timestamp ∷ type ∷ key ∷ value ∷ ttl ∷ []) = some (record {
    timestamp = parse_int timestamp;
    type = type;
    key = key;
    value = parse_value value;
    ttl = parse_int ttl;
  })
  compact_parts _ = none

  unfoldable pub parse_compact_line : Text → Option (Command P)
  unfolding parse_value
  parse_compact_line s =
      let line = trim_space s in if text_eq line [] then none else compact_parts (split bar line)

-- ===== src/Utils/Quotes.antt =====
-- utils/command_parser.go, ParseCommandWithQuotes. The loop over the bytes keeps, beside `current`
-- and `parts`, whether it stands in quotes (and in which), has just seen a space outside quotes
-- (the inner loop that skips further spaces), or has just seen the backslash of an escape.
pub mod RoundTrip
use ant_cache.Base.{
  ℕ, ◌≡◌, refl, Bool, true, false, not, ◌&&◌, ◌||◌, Text, codes, List, [], ◌∷◌, ◌++◌, Option, none,
  some, ◌==◌, if◌then◌else◌, length, zero, suc, All,
}
use mathlib.Core.List.{reverse}

pub data Mode : Type 0 where
  plain skipping : Mode
  quoted escaped : ℕ → Mode

pub record Scan : Type 0 where
  pub mode : Mode
  pub current : Text
  pub parts : List Text

abbrev pub is_quote : ℕ → Bool
is_quote c = c == b'"' || c == 39

abbrev pub is_blank : ℕ → Bool
is_blank c = c == 32 || c == 9

-- `if current.Len() > 0 { parts = append(parts, current.String()) }`
abbrev pub flush : List Text → Text → List Text
flush parts [] = parts
flush parts (c ∷ current) = parts ++ (c ∷ current) ∷ []

-- What an escape `\c` writes.
unfoldable pub unescape : ℕ → Text
unescape c =
    if c == b'n'
    then 10 ∷ []
    else if c == b't'
    then 9 ∷ []
    else if c == b'r'
    then 13 ∷ []
    else if c == 92
    then 92 ∷ []
    else if c == b'"'
    then b'"' ∷ []
    else if c == 39
    then 39 ∷ []
    else 92 ∷ c ∷ []

unfoldable pub plain_step : Scan → ℕ → Scan
plain_step st c =
    if is_quote c
    then record st { mode = quoted c }
    else if is_blank c
    then record { mode = skipping; current = []; parts = flush st.parts st.current }
    else record st { mode = plain; current = st.current ++ c ∷ [] }

-- `more` says whether a byte follows.
unfoldable pub quoted_step : Bool → Scan → ℕ → ℕ → Scan
quoted_step more st q c =
    if c == q
    then record st { mode = plain }
    else if c == 92 && more
    then record st { mode = escaped q }
    else record st { mode = quoted q; current = st.current ++ c ∷ [] }

unfoldable pub mode_step : Mode → Bool → Scan → ℕ → Scan
mode_step plain more st c = plain_step st c
mode_step skipping more st c = if is_blank c then st else plain_step st c
mode_step (quoted q) more st c = quoted_step more st q c
mode_step (escaped q) more st c = record st { mode = quoted q; current = st.current ++ unescape c }

abbrev pub is_nonempty : Text → Bool
is_nonempty [] = false
is_nonempty (_ ∷ _) = true

unfoldable pub scan : Scan → Text → List Text
scan st [] = flush st.parts st.current
scan st (c ∷ s) = scan (mode_step st.mode (is_nonempty s) st c) s

-- strings.TrimSpace: the white space of Unicode, by its UTF-8 encodings.
abbrev pub space_runes : List Text
space_runes =
    (9 ∷ [])
    ∷ (10 ∷ [])
    ∷ (11 ∷ [])
    ∷ (12 ∷ [])
    ∷ (13 ∷ [])
    ∷ (32 ∷ [])
    ∷ (0xc2 ∷ 0x85 ∷ [])
    ∷ (0xc2 ∷ 0xa0 ∷ [])
    ∷ (0xe1 ∷ 0x9a ∷ 0x80 ∷ [])
    ∷ (0xe2 ∷ 0x80 ∷ 0x80 ∷ [])
    ∷ (0xe2 ∷ 0x80 ∷ 0x81 ∷ [])
    ∷ (0xe2 ∷ 0x80 ∷ 0x82 ∷ [])
    ∷ (0xe2 ∷ 0x80 ∷ 0x83 ∷ [])
    ∷ (0xe2 ∷ 0x80 ∷ 0x84 ∷ [])
    ∷ (0xe2 ∷ 0x80 ∷ 0x85 ∷ [])
    ∷ (0xe2 ∷ 0x80 ∷ 0x86 ∷ [])
    ∷ (0xe2 ∷ 0x80 ∷ 0x87 ∷ [])
    ∷ (0xe2 ∷ 0x80 ∷ 0x88 ∷ [])
    ∷ (0xe2 ∷ 0x80 ∷ 0x89 ∷ [])
    ∷ (0xe2 ∷ 0x80 ∷ 0x8a ∷ [])
    ∷ (0xe2 ∷ 0x80 ∷ 0xa8 ∷ [])
    ∷ (0xe2 ∷ 0x80 ∷ 0xa9 ∷ [])
    ∷ (0xe2 ∷ 0x80 ∷ 0xaf ∷ [])
    ∷ (0xe2 ∷ 0x81 ∷ 0x9f ∷ [])
    ∷ (0xe3 ∷ 0x80 ∷ 0x80 ∷ [])
    ∷ []

unfoldable pub after_prefix : Text → Text → Option Text
after_prefix [] s = some s
after_prefix (a ∷ p) [] = none
after_prefix (a ∷ p) (c ∷ s) = let rest = after_prefix p s in if a == c then rest else none

abbrev pub or_else : Option Text → Option Text → Option Text
or_else (some s) other = some s
or_else none other = other

unfoldable pub after_any : List Text → Text → Option Text
unfolding after_prefix
after_any [] s = none
after_any (p ∷ ps) s = or_else (after_prefix p s) (after_any ps s)

-- Each round takes a byte away at least, so `length s` rounds are enough.
unfoldable pub trim_left : ℕ → List Text → Text → Text
trim_left zero runes s = s
trim_left (suc k) runes s = elim (after_any runes s) [
  | some rest ↦ trim_left k runes rest
  | none ↦ s
]

abbrev pub reverse_all : List Text → List Text
reverse_all [] = []
reverse_all (p ∷ ps) = reverse p ∷ reverse_all ps

unfoldable pub trim_space : Text → Text
unfolding trim_left after_any
trim_space s =
    let front = trim_left (length s) space_runes s in
    reverse (trim_left (length front) (reverse_all space_runes) (reverse front))

unfoldable pub parse_command_with_quotes : Text → List Text
unfolding scan mode_step plain_step quoted_step unescape trim_space
parse_command_with_quotes input =
    scan (record { mode = plain; current = []; parts = [] }) (trim_space input)

parse_runs :
    (parse_command_with_quotes (codes "  SET  a 'b c' \t x")
      ≡ codes "SET" ∷ codes "a" ∷ codes "b c" ∷ codes "x" ∷ [])
    × (parse_command_with_quotes (codes "SET a ''") ≡ codes "SET" ∷ codes "a" ∷ [])
unfolding parse_command_with_quotes
parse_runs = (refl, refl)

-- ===== src/Utils/Ttl.antt =====
-- utils/command_parser.go, ParseTTL, with the library functions that it calls: strconv.Atoi,
-- strings.ToLower on ASCII letters (no other letter has a lower case that the pattern accepts), and
-- the match of `^(\d+)([smhdy])$`. `none` stands for a returned error.
pub mod Units
use ant_cache.Base.{
  ℕ, ◌+◌, ◌-◌, ◌*◌, ◌^◌, ◌≤◌, ◌<◌, ◌≡◌, ◌≢◌, refl, ap, ◌∙◌, sym, inl, inr, Bool-cases, arith, ℤ,
  pos, negsuc, ◌*ℤ◌, wrap64, IsInt64, wrap64-IsInt64, wrap64_id, sub_ℕ, Bool, true, false, ◌&&◌,
  ◌||◌, Text, codes, List, [], ◌∷◌, ◌++◌, Option, none, some, ◌==◌, leb, ltb, if◌then◌else◌, length,
  All,
}
use mathlib.Core.List.{map}

abbrev pub is_digit : ℕ → Bool
is_digit c = leb b'0' c && leb c b'9'

unfoldable pub to_lower : ℕ → ℕ
to_lower c = if leb b'A' c && leb c b'Z' then c + 32 else c

-- The value of a non-empty run of digits.
unfoldable pub digits_from : ℕ → Text → Option ℕ
digits_from n [] = some n
digits_from n (c ∷ s) =
    let rest = digits_from (n * 10 + (c - b'0')) s in if is_digit c then rest else none

unfoldable pub digits_value : Text → Option ℕ
unfolding digits_from
digits_value [] = none
digits_value (c ∷ s) = digits_from 0 (c ∷ s)

-- The range check of Atoi, for a positive and for a negative number.
abbrev pub in_range : Option ℕ → Option ℤ
in_range none = none
in_range (some n) = if ltb n (2 ^ 63) then some (pos n) else none

abbrev pub in_range_neg : Option ℕ → Option ℤ
in_range_neg none = none
in_range_neg (some n) = if leb n (2 ^ 63) then some (sub_ℕ 0 n) else none

unfoldable pub atoi : Text → Option ℤ
unfolding digits_value
atoi [] = none
atoi (c ∷ s) =
    if c == b'-'
    then in_range_neg (digits_value s)
    else if c == b'+'
    then in_range (digits_value s)
    else in_range (digits_value (c ∷ s))

-- The two groups of `^(\d+)([smhdy])$`: all but the last byte, digits, and the last byte, a unit.
abbrev pub is_unit : ℕ → Bool
is_unit c = c == b's' || c == b'm' || c == b'h' || c == b'd' || c == b'y'

abbrev pub with_digit : ℕ → Option (Text × ℕ) → Option (Text × ℕ)
with_digit c none = none
with_digit c (some (ds, u)) = some (c ∷ ds, u)

-- After the first digit: more digits and the unit.
unfoldable pub match_rest : Text → Option (Text × ℕ)
match_rest [] = none
match_rest (u ∷ []) = if is_unit u then some ([], u) else none
match_rest (c ∷ d ∷ s) =
    let rest = with_digit c (match_rest (d ∷ s)) in if is_digit c then rest else none

unfoldable pub match_ttl : Text → Option (Text × ℕ)
unfolding match_rest
match_ttl [] = none
match_ttl (c ∷ s) = if is_digit c then with_digit c (match_rest s) else none

-- Nanoseconds: time.Second, time.Minute and time.Hour.
abbrev pub second : ℤ
second = pos 1000000000

abbrev pub minute : ℤ
minute = pos 60000000000

abbrev pub hour : ℤ
hour = pos 3600000000000

-- The product of two int64, wrapped around.
infixl 70 ◌*₆₄◌
abbrev pub ◌*₆₄◌ : ℤ → ℤ → ℤ
a *₆₄ b = wrap64 (a *ℤ b)

-- `switch unit`; a match has one of the five units, so the last branch is not reached.
unfoldable pub in_unit : ℤ → ℕ → Option ℤ
in_unit num unit =
    if unit == b's'
    then some (num *₆₄ second)
    else if unit == b'm'
    then some (num *₆₄ minute)
    else if unit == b'h'
    then some (num *₆₄ hour)
    else if unit == b'd'
    then some (num *₆₄ pos 24 *₆₄ hour)
    else if unit == b'y'
    then some (num *₆₄ pos 365 *₆₄ pos 24 *₆₄ hour)
    else none

abbrev pub in_unit_of : Option ℤ → ℕ → Option ℤ
in_unit_of none unit = none
in_unit_of (some num) unit = in_unit num unit

abbrev pub of_match : Option (Text × ℕ) → Option ℤ
of_match none = none
of_match (some (digits, unit)) = in_unit_of (atoi digits) unit

abbrev pub seconds_or : Option ℤ → Option ℤ → Option ℤ
seconds_or (some num) other = some (num *₆₄ second)
seconds_or none other = other

unfoldable pub parse_ttl : Text → Option ℤ
unfolding atoi match_ttl in_unit to_lower
parse_ttl [] = some (pos 0)
parse_ttl (c ∷ s) = seconds_or (atoi (c ∷ s)) (of_match (match_ttl (map to_lower (c ∷ s))))

parse_ttl_runs :
    (parse_ttl (codes "30") ≡ some (pos 30000000000))
    × (parse_ttl (codes "5M") ≡ some (pos 300000000000))
    × (parse_ttl (codes "2d") ≡ some (pos 172800000000000))
    × (parse_ttl (codes "1x") ≡ none)
unfolding parse_ttl ◌*ℤ◌ wrap64
parse_ttl_runs = (refl, refl, refl, refl)

-- The error text of ParseTTL.
unfoldable pub ttl_error : Text → Text
unfolding match_ttl to_lower
ttl_error s = elim (match_ttl (map to_lower s)) [
  | none ↦ codes "invalid TTL format: " ++ s
  | some (digits, unit) ↦ codes "invalid number in TTL: " ++ digits
]

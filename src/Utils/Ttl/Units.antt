-- ===== src/Utils/Ttl/Units.antt =====
-- utils/command_parser.go: ParseTTL on a run of digits with a unit behind it.
use ant_cache.Base.{
  ℕ, ◌+◌, ◌-◌, ◌*◌, ◌^◌, ◌<◌, ◌≡◌, refl, ap, ◌∙◌, arith, pos, ◌*ℤ◌, wrap64, wrap64_id, true, false,
  ◌||◌, Text, [], ◌∷◌, ◌++◌, none, some, ◌==◌, ltb, if◌then◌else◌,
}
use mathlib.Core.List.{map}
use ant_cache.Utils.Ttl.{
  is_digit, to_lower, digits_from, digits_value, atoi, is_unit, with_digit, match_rest, match_ttl,
  in_unit, ◌*₆₄◌, parse_ttl,
}

-- The seconds in a unit, and 0 for a byte that is none.
unfoldable pub unit_seconds : ℕ → ℕ
unit_seconds u =
    if u == b's' || u == b'S'
    then 1
    else if u == b'm' || u == b'M'
    then 60
    else if u == b'h' || u == b'H'
    then 3600
    else if u == b'd' || u == b'D'
    then 86400
    else if u == b'y' || u == b'Y'
    then 31536000
    else 0

-- A unit letter is no digit, and its lower case is one of the five units.
unit_letter : (u : ℕ) → 0 < unit_seconds u → (is_digit u ≡ false) × (is_unit (to_lower u) ≡ true)
unfolding unit_seconds to_lower
unit_letter u h = (ground arith, ground arith)

digits_from-unit : (s : Text) (n u : ℕ) → is_digit u ≡ false → digits_from n (s ++ u ∷ []) ≡ none
unfolding digits_from
digits_from-unit [] n u h = rw h refl
digits_from-unit (c ∷ s) n u h = ground (arith, digits_from-unit s (n * 10 + (c - b'0')) u h)

-- A digit that heads a number, and the digits behind it.
pub digits_from-head :
    (c : ℕ) (s : Text) (n m : ℕ)
    → digits_from n (c ∷ s) ≡ some m
    → (is_digit c ≡ true) × (digits_from (n * 10 + (c - b'0')) s ≡ some m)
unfolding digits_from
digits_from-head c s n m h = (ground arith, ground arith)

to_lower-digit : (c : ℕ) → is_digit c ≡ true → to_lower c ≡ c
unfolding to_lower
to_lower-digit c h = ground arith

match_rest-digits :
    (s : Text) (n m u : ℕ)
    → digits_from n s ≡ some m
    → is_unit (to_lower u) ≡ true
    → match_rest (map to_lower (s ++ u ∷ [])) ≡ some (s, to_lower u)
unfolding match_rest
match_rest-digits [] n m u h unit = rw unit refl
match_rest-digits (c ∷ []) n m u h unit =
    let (digit, rest) = digits_from-head c [] n m h in rw (to_lower-digit c digit, digit, unit) refl
match_rest-digits (c ∷ d ∷ s) n m u h unit =
    let (digit, rest) = digits_from-head c (d ∷ s) n m h in
    rw (to_lower-digit c digit, digit)
      (ap (with_digit c) (match_rest-digits (d ∷ s) _ m u rest unit))

atoi-unit :
    (c : ℕ) (s : Text) (u : ℕ)
    → is_digit c ≡ true
    → is_digit u ≡ false
    → atoi (c ∷ s ++ u ∷ []) ≡ none
unfolding atoi
atoi-unit c s u digit h =
    let minus : (c == b'-') ≡ false = ground arith in
    let plus : (c == b'+') ≡ false = ground arith in
    rw (minus, plus, digits_from-unit (c ∷ s) 0 u h) refl

pub atoi-digits :
    (c : ℕ) (s : Text) (n : ℕ)
    → digits_value (c ∷ s) ≡ some n
    → n < 2 ^ 63
    → atoi (c ∷ s) ≡ some (pos n)
unfolding atoi
atoi-digits c s n h small =
    let (digit, _) = digits_from-head c s 0 n h in
    let minus : (c == b'-') ≡ false = ground arith in
    let plus : (c == b'+') ≡ false = ground arith in
    let fits : ltb n (2 ^ 63) ≡ true = ground arith in rw (minus, plus, h, fits) refl

*₆₄_id : (a b : ℕ) → a * b < 2 ^ 63 → (pos a *₆₄ pos b) ≡ pos (a * b)
unfolding ◌*ℤ◌
*₆₄_id a b h = ap wrap64 (ground arith) ∙ wrap64_id (pos (a * b)) (omega arith, omega arith)

in_unit_exact :
    (n u : ℕ)
    → 0 < unit_seconds u
    → n * (unit_seconds u * 1000000000) < 2 ^ 63
    → in_unit (pos n) (to_lower u) ≡ some (pos (n * (unit_seconds u * 1000000000)))
unfolding in_unit unit_seconds to_lower
in_unit_exact n u known small = ground (
  arith,
  *₆₄_id n 1000000000,
  *₆₄_id n 60000000000,
  *₆₄_id n 3600000000000,
  *₆₄_id n 24,
  *₆₄_id (n * 24) 3600000000000,
  *₆₄_id n 365,
  *₆₄_id (n * 365) 24,
  *₆₄_id (n * 365 * 24) 3600000000000,
)

-- ParseTTL of digits and a unit letter, of either case, is the number of nanoseconds, if that is
-- an int64.
pub parse_ttl-unit :
    (ds : Text) (n u : ℕ)
    → digits_value ds ≡ some n
    → 0 < unit_seconds u
    → n * (unit_seconds u * 1000000000) < 2 ^ 63
    → parse_ttl (ds ++ u ∷ []) ≡ some (pos (n * (unit_seconds u * 1000000000)))
unfolding parse_ttl digits_value match_ttl
parse_ttl-unit [] n u h known small = cc
parse_ttl-unit (c ∷ s) n u h known small =
    let (not_digit, unit) = unit_letter u known in
    let (digit, rest) = digits_from-head c s 0 n h in
    let below : n < 2 ^ 63 = grind arith in
    rw
      (
        atoi-unit c s u digit not_digit,
        to_lower-digit c digit,
        digit,
        match_rest-digits s _ n u rest unit,
        atoi-digits c s n h below,
      )
      (in_unit_exact n u known small)

-- ===== src/Strings/Decimal.antt =====
-- A number that is written with %d is read back by Atoi.
use ant_cache.Utils.Ttl.Units.{atoi-digits}
use ant_cache.Base.{
  ℕ, zero, suc, ◌+◌, ◌-◌, ◌*◌, ◌/◌, ◌%◌, ◌<◌, ◌≤◌, ◌≡◌, refl, ap, ◌∙◌, arith, ℤ, pos, negsuc,
  IsInt64, inl, inr, Bool-cases, [], ◌∷◌, ◌++◌, Option, none, some, Text, ltb, if◌then◌else◌, All,
  sym,
}
use ant_cache.Strings.{show_digits, show_int}
use ant_cache.Utils.Ttl.{is_digit, digits_from, digits_value, atoi}

-- One more digit behind a number.
abbrev and_digit : ℕ → Option ℕ → Option ℕ
and_digit c none = none
and_digit c (some n) = if is_digit c then some (n * 10 + (c - b'0')) else none

digits_from-append :
    (n c : ℕ) (s : Text) → digits_from n (s ++ c ∷ []) ≡ and_digit c (digits_from n s)
unfolding digits_from
digits_from-append n c [] = refl
digits_from-append n c (d ∷ s) = ground (arith, digits_from-append (n * 10 + (d - b'0')) c s)

show_digits-digits_from : (k n : ℕ) → n < k → digits_from 0 (show_digits k n) ≡ some n
unfolding show_digits
show_digits-digits_from zero n h = absurd (omega arith)
show_digits-digits_from (suc k) n h = elim (Bool-cases (ltb n 10)) [
  | inl small ↦ rw small (unfold digits_from in ground arith)
  | inr large ↦ rw large (
      digits_from-append 0 (b'0' + n % 10) (show_digits k (n / 10))
      ∙ ap (and_digit (b'0' + n % 10)) (show_digits-digits_from k (n / 10) (ground arith))
      ∙ ground arith)
]

-- The characters from the minus sign to the digit 9.
abbrev pub IsNumeral : ℕ → Type 0
IsNumeral c = (b'-' ≤ c) × (c ≤ b'9')

digit-IsNumeral : (d : ℕ) → d < 10 → IsNumeral (b'0' + d)
digit-IsNumeral d h = omega arith

-- A number is written with one numeral or more.
abbrev pub IsWritten : Text → Type 0
IsWritten s = (a : ℕ) × (r : Text) × (s ≡ a ∷ r) × (All IsNumeral s)

All-append_one : (s : Text) (c : ℕ) → All IsNumeral s → IsNumeral c → All IsNumeral (s ++ c ∷ [])
All-append_one [] c h hc = (hc, tt)
All-append_one (d ∷ s) c (hd, h) hc = (hd, All-append_one s c h hc)

show_digits-IsWritten : (k n : ℕ) → n < k → IsWritten (show_digits k n)
unfolding show_digits
show_digits-IsWritten zero n h = absurd (omega arith)
show_digits-IsWritten (suc k) n h = elim (Bool-cases (ltb n 10)) [
  | inl small ↦ rw small (b'0' + n, [], refl, (digit-IsNumeral n (ground arith), tt))
  | inr large ↦
      let (a, r, e, all) = show_digits-IsWritten k (n / 10) (ground arith) in
      rw large (
        a,
        r ++ (b'0' + n % 10) ∷ [],
        ap (λ (s : Text). s ++ (b'0' + n % 10) ∷ []) e,
        All-append_one (show_digits k (n / 10)) (b'0' + n % 10) all
            (digit-IsNumeral (n % 10) (omega arith)),
      )
]

pub show_int-IsWritten : (n : ℤ) → IsWritten (show_int n)
unfolding show_int
show_int-IsWritten (pos n) = show_digits-IsWritten (suc n) n (omega arith)
show_int-IsWritten (negsuc n) =
    let (a, r, e, all) = show_digits-IsWritten (suc (n + 1)) (n + 1) (omega arith) in
    (b'-', show_digits (suc (n + 1)) (n + 1), refl, (omega arith, all))

digits_value-show : (k n : ℕ) → n < k → digits_value (show_digits k n) ≡ some n
unfolding digits_value
digits_value-show k n h =
    let (a, r, e, all) = show_digits-IsWritten k n h in
    let value : digits_from 0 (a ∷ r) ≡ some n =
      ap (digits_from 0) (sym e) ∙ show_digits-digits_from k n h in
    ap digits_value e ∙ value

-- Atoi reads a number back that was written with %d, if it is an int64.
pub atoi-show_int : (n : ℤ) → IsInt64 n → atoi (show_int n) ≡ some n
unfolding show_int
atoi-show_int (pos n) h =
    let (a, r, e, all) = show_digits-IsWritten (suc n) n (omega arith) in
    let value : digits_value (a ∷ r) ≡ some n =
      ap digits_value (sym e) ∙ digits_value-show (suc n) n (omega arith) in
    ap atoi e ∙ atoi-digits a r n value (omega arith)
atoi-show_int (negsuc n) h =
    let value = digits_value-show (suc (n + 1)) (n + 1) (omega arith) in
    unfold atoi in rw value (ground arith)

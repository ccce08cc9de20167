-- ===== src/Auth/Hex.antt =====
-- hex.EncodeToString and hex.DecodeString of Go's encoding/hex package.
use ant_cache.Base.{
  ℕ, ◌+◌, ◌-◌, ◌*◌, ◌≤◌, ◌<◌, ◌≡◌, refl, ap, ◌&&◌, Option, none, some, [], ◌∷◌, arith,
  if◌then◌else◌, Text, length, All, leb, ltb, ◌%◌, ◌/◌,
}

abbrev pub hex_digit : ℕ → ℕ
hex_digit n = if ltb n 10 then b'0' + n else b'a' + (n - 10)

unfoldable pub hex_encode : Text → Text
hex_encode [] = []
hex_encode (c ∷ s) = hex_digit (c / 16) ∷ hex_digit (c % 16) ∷ hex_encode s

abbrev pub hex_value : ℕ → Option ℕ
hex_value c =
    if leb b'0' c && leb c b'9'
    then some (c - b'0')
    else if leb b'a' c && leb c b'f'
    then some (c - b'a' + 10)
    else if leb b'A' c && leb c b'F'
    then some (c - b'A' + 10)
    else none

abbrev pub hex_byte : Option ℕ → Option ℕ → Option Text → Option Text
hex_byte (some a) (some b) (some s) = some ((a * 16 + b) ∷ s)
hex_byte _ _ _ = none

unfoldable pub hex_decode : Text → Option Text
hex_decode [] = some []
hex_decode (a ∷ []) = none
hex_decode (a ∷ b ∷ s) = hex_byte (hex_value a) (hex_value b) (hex_decode s)

abbrev pub IsByte : ℕ → Type 0
IsByte c = c < 256

-- The characters from the digit 0 to the letter f.
abbrev pub IsHex : ℕ → Type 0
IsHex c = (b'0' ≤ c) × (c ≤ b'f')

hex_value-digit : (n : ℕ) → n < 16 → hex_value (hex_digit n) ≡ some n
hex_value-digit n h = ground arith

pub hex_decode-encode : (s : Text) → All IsByte s → hex_decode (hex_encode s) ≡ some s
unfolding hex_decode hex_encode
hex_decode-encode [] h = refl
hex_decode-encode (c ∷ s) (hc, h) =
    rw
      (
        hex_value-digit (c / 16) (omega arith),
        hex_value-digit (c % 16) (omega arith),
        hex_decode-encode s h,
      )
      (ap (λ n. some (n ∷ s)) (omega arith))

hex_digit-IsHex : (n : ℕ) → n < 16 → IsHex (hex_digit n)
hex_digit-IsHex n h = ground arith

pub hex_encode-IsHex : (s : Text) → All IsByte s → All IsHex (hex_encode s)
unfolding hex_encode
hex_encode-IsHex [] h = tt
hex_encode-IsHex (c ∷ s) (hc, h) = (
  hex_digit-IsHex (c / 16) (omega arith),
  (hex_digit-IsHex (c % 16) (omega arith), hex_encode-IsHex s h),
)

pub length-hex_encode : (s : Text) → length (hex_encode s) ≡ length s + length s
unfolding hex_encode
length-hex_encode [] = refl
length-hex_encode (c ∷ s) = omega (arith, length-hex_encode s)

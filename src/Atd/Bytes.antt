-- ===== src/Atd/Bytes.antt =====
-- cache/persistence.go: encoding/binary's big-endian integers, as the snapshot's readers and
-- writers use them, and io.ReadFull. A reader takes what is left of the file, and `none` stands for
-- a returned error.
pub mod RoundTrip
use ant_cache.Base.{
  ℕ, suc, ◌+◌, ◌*◌, ◌/◌, ◌%◌, ◌^◌, ℤ, pos, negsuc, List, [], ◌∷◌, ◌++◌, Option, none, some, Text,
  length, take, drop, leb, if◌then◌else◌, pattern64, signed64,
}

abbrev pub Reader : Type 0 → Type 0
Reader A = Text → Option (A × Text)

abbrev pub pass : {A B : Type 0} → (A → Reader B) → Option (A × Text) → Option (B × Text)
pass f none = none
pass f (some (a, s)) = f a s

infixl 5 ◌>>=◌
unfoldable pub ◌>>=◌ : {A B : Type 0} → Reader A → (A → Reader B) → Reader B
p >>= f = λ s. pass f (p s)

abbrev pub return : {A : Type 0} → A → Reader A
return a s = some (a, s)

abbrev pub failure : {A : Type 0} → Reader A
failure s = none

unfoldable pub read_byte : Reader ℕ
read_byte [] = none
read_byte (b ∷ s) = some (b, s)

-- io.ReadFull into a slice of n bytes
unfoldable pub read_full : ℕ → Reader Text
read_full n s = if leb n (length s) then some (take n s, drop n s) else none

unfoldable pub write_u16 : ℕ → Text
write_u16 n = n / 256 % 256 ∷ n % 256 ∷ []

unfoldable pub write_u32 : ℕ → Text
write_u32 n = write_u16 (n / 2 ^ 16 % 2 ^ 16) ++ write_u16 (n % 2 ^ 16)

unfoldable pub write_i64 : ℤ → Text
write_i64 n = write_u32 (pattern64 n / 2 ^ 32) ++ write_u32 (pattern64 n % 2 ^ 32)

unfoldable pub read_u16 : Reader ℕ
read_u16 = read_byte >>= λ a. read_byte >>= λ b. return (a * 256 + b)

unfoldable pub read_u32 : Reader ℕ
read_u32 = read_u16 >>= λ a. read_u16 >>= λ b. return (a * 2 ^ 16 + b)

unfoldable pub read_i64 : Reader ℤ
read_i64 = read_u32 >>= λ a. read_u32 >>= λ b. return (signed64 (a * 2 ^ 32 + b))

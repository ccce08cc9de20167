-- ===== src/Atd/Bytes/RoundTrip.antt =====
-- cache/persistence.go: the readers and the writers of integers, one after the other.
use ant_cache.Base.{
  ℕ, ◌+◌, ◌*◌, ◌/◌, ◌%◌, ◌^◌, ◌<◌, ◌≡◌, refl, ap, ◌∙◌, arith, true, ℤ, pos, negsuc, [], ◌∷◌, ◌++◌,
  some, Text, length, leb, length-append, take-append, drop-append, pattern64, signed64, IsInt64,
}
use mathlib.Core.List.{append_assoc}
use ant_cache.Atd.Bytes.{
  Reader, pass, ◌>>=◌, return, read_byte, read_full, write_u16, write_u32, write_i64, read_u16,
  read_u32, read_i64,
}

-- Reader `p` takes exactly the bytes `w` and gives `a`.
abbrev pub Reads : {A : Type 0} → Reader A → Text → A → Type 0
Reads p w a = (rest : Text) → p (w ++ rest) ≡ some (a, rest)

pub Reads-bind :
    {A B : Type 0} (p : Reader A) (f : A → Reader B) (v w : Text) (a : A) (b : B)
    → Reads p v a
    → Reads (f a) w b
    → Reads (p >>= f) (v ++ w) b
unfolding ◌>>=◌
Reads-bind p f v w a b h k rest =
    ap (λ s. pass f (p s)) (append_assoc v w rest) ∙ ap (pass f) (h (w ++ rest)) ∙ k rest

pub Reads-map :
    {A B : Type 0} (p : Reader A) (f : A → B) (v : Text) (a : A)
    → Reads p v a
    → Reads (p >>= λ x. return (f x)) v (f a)
unfolding ◌>>=◌
Reads-map p f v a h rest = ap (pass λ x. return (f x)) (h rest)

pub read_byte-Reads : (b : ℕ) → Reads read_byte (b ∷ []) b
unfolding read_byte
read_byte-Reads b rest = refl

pub read_full-Reads : (s : Text) → Reads (read_full (length s)) s s
unfolding read_full
read_full-Reads s rest =
    let fits : leb (length s) (length (s ++ rest)) ≡ true = ground (arith, length-append s rest) in
    rw (fits, take-append, drop-append) refl

pub read_u16-Reads : (n : ℕ) → n < 2 ^ 16 → Reads read_u16 (write_u16 n) n
unfolding read_u16 read_byte write_u16 ◌>>=◌
read_u16-Reads n h rest = ground arith

pub read_u32-Reads : (n : ℕ) → n < 2 ^ 32 → Reads read_u32 (write_u32 n) n
unfolding read_u32 read_u16 read_byte write_u32 write_u16 ◌>>=◌
read_u32-Reads n h rest = ground arith

signed64_pattern : (n : ℤ) → IsInt64 n → signed64 (pattern64 n) ≡ n
signed64_pattern (pos n) h = ground arith
signed64_pattern (negsuc n) h = ground arith

pattern64_fits : (n : ℤ) → pattern64 n < 2 ^ 64
pattern64_fits (pos n) = omega arith
pattern64_fits (negsuc n) = omega arith

pub read_i64-Reads : (n : ℤ) → IsInt64 n → Reads read_i64 (write_i64 n) n
unfolding read_i64 write_i64
read_i64-Reads n h =
    let w = pattern64 n in
    let fits = pattern64_fits n in
    let joined : Reads read_i64 (write_u32 (w / 2 ^ 32) ++ write_u32 (w % 2 ^ 32))
        (signed64 (w / 2 ^ 32 * 2 ^ 32 + w % 2 ^ 32)) =
      Reads-bind read_u32 _ (write_u32 (w / 2 ^ 32)) _ (w / 2 ^ 32) _
        (read_u32-Reads (w / 2 ^ 32) (omega arith))
        (Reads-map read_u32 _ (write_u32 (w % 2 ^ 32)) (w % 2 ^ 32)
          (read_u32-Reads (w % 2 ^ 32) (omega arith))) in
    let whole : w / 2 ^ 32 * 2 ^ 32 + w % 2 ^ 32 ≡ w = omega arith in
    λ rest. joined rest ∙ ap (λ v. some (v, rest)) (ap signed64 whole ∙ signed64_pattern n h)

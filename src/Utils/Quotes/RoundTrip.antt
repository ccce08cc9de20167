-- ===== src/Utils/Quotes/RoundTrip.antt =====
-- utils/command_parser.go: command lines written with quotes and escapes, and
-- ParseCommandWithQuotes.
use ant_cache.Base.{
  ℕ, ◌≡◌, refl, ap, ◌∙◌, sym, inl, inr, ◌⊎◌, Bool-cases, arith, true, Text, List, [], ◌∷◌, ◌++◌,
  ◌==◌, if◌then◌else◌, length, zero, suc, All,
}
use mathlib.Core.List.{reverse, append_assoc, append-nil, reverse-append, reverse-reverse}
use ant_cache.Utils.Quotes.{
  Mode, plain, skipping, quoted, Scan, unescape, plain_step, quoted_step, mode_step, scan,
  is_nonempty, trim_space, trim_left, space_runes, reverse_all, after_any,
  parse_command_with_quotes,
}

abbrev escape_byte : ℕ → Text
escape_byte c =
    if c == 92
    then 92 ∷ 92 ∷ []
    else if c == b'"'
    then 92 ∷ b'"' ∷ []
    else if c == 10
    then 92 ∷ b'n' ∷ []
    else c ∷ []

-- The bytes of an argument, with backslashes, double quotes and newlines escaped.
pub escape : Text → Text
escape [] = []
escape (c ∷ s) = escape_byte c ++ escape s

pub quote : Text → Text
quote w = b'"' ∷ escape w ++ b'"' ∷ []

pub command_line : List Text → Text
command_line [] = []
command_line (w ∷ []) = quote w
command_line (w ∷ u ∷ ws) = quote w ++ 32 ∷ command_line (u ∷ ws)

abbrev st : Mode → Text → List Text → Scan
st mode current parts = record { mode = mode; current = current; parts = parts }

abbrev IsArgument : Text → Type 0
IsArgument w = is_nonempty w ≡ true

nonempty-append : (s : Text) (c : ℕ) (rest : Text) → is_nonempty (s ++ c ∷ rest) ≡ true
nonempty-append [] c rest = refl
nonempty-append (a ∷ s) c rest = refl

-- An escaped byte is read as the byte.
scan-escape_byte :
    (c : ℕ) (cur : Text) (parts : List Text) (t : Text)
    → scan (st (quoted b'"') cur parts) (escape_byte c ++ t)
      ≡ scan (st (quoted b'"') (cur ++ c ∷ []) parts) t
unfolding scan mode_step quoted_step unescape
scan-escape_byte c cur parts t = elim (Bool-cases (c == 92)) [
  | inl e ↦ let eq : c ≡ 92 = ground arith in rw eq refl
  | inr n1 ↦ elim (Bool-cases (c == b'"')) [
    | inl e ↦ let eq : c ≡ b'"' = ground arith in rw eq refl
    | inr n2 ↦ elim (Bool-cases (c == 10)) [
      | inl e ↦ let eq : c ≡ 10 = ground arith in rw eq refl
      | inr n3 ↦ rw (n1, n2, n3) (rw (n2, n1) refl)
    ]
  ]
]

-- Inside the quotes, the escaped bytes of `w` add `w` to the current part.
scan-escape :
    (w cur : Text) (parts : List Text) (rest : Text)
    → scan (st (quoted b'"') cur parts) (escape w ++ b'"' ∷ rest)
      ≡ scan (st plain (cur ++ w) parts) rest
unfolding scan escape mode_step quoted_step
scan-escape [] cur parts rest = rw append-nil refl
scan-escape (c ∷ w) cur parts rest = rw append_assoc (
    scan-escape_byte c cur parts (escape w ++ b'"' ∷ rest)
    ∙ scan-escape w (cur ++ c ∷ []) parts rest
    ∙ ap (λ (s : Text). scan (st plain s parts) rest) (append_assoc cur (c ∷ []) w))

-- A quoted argument, met outside quotes at the start of a part.
scan-quote :
    (m : Mode) (w : Text) (parts : List Text) (rest : Text)
    → (m ≡ plain) ⊎ (m ≡ skipping)
    → scan (st m [] parts) (quote w ++ rest) ≡ scan (st plain w parts) rest
unfolding scan quote mode_step plain_step
scan-quote m w parts rest (inl e) = rw e (rw append_assoc (scan-escape w [] parts rest))
scan-quote m w parts rest (inr e) = rw e (rw append_assoc (scan-escape w [] parts rest))

scan-command_line :
    (m : Mode) (ws : List Text) (parts : List Text)
    → (m ≡ plain) ⊎ (m ≡ skipping)
    → All IsArgument ws
    → scan (st m [] parts) (command_line ws) ≡ parts ++ ws
unfolding command_line scan mode_step plain_step
scan-command_line m [] parts at h = rw append-nil refl
scan-command_line m ((a ∷ w) ∷ []) parts at h =
    rw (append-nil (quote (a ∷ w))) at (scan-quote m (a ∷ w) parts [] at)
scan-command_line m ((a ∷ w) ∷ u ∷ ws) parts at h =
    scan-quote m (a ∷ w) parts (32 ∷ command_line (u ∷ ws)) at
    ∙ scan-command_line skipping (u ∷ ws) (parts ++ (a ∷ w) ∷ []) (inr refl) h.1
    ∙ append_assoc parts ((a ∷ w) ∷ []) (u ∷ ws)
scan-command_line m ([] ∷ ws) parts at h = cc h.0

-- A line that begins and ends with a double quote has no white space to trim.
abbrev Ends : Text → Type 0
Ends s = (t : Text) × (s ≡ t ++ b'"' ∷ [])

command_line-Ends : (w : Text) (ws : List Text) → Ends (command_line (w ∷ ws))
unfolding command_line quote
command_line-Ends w [] = (b'"' ∷ escape w, refl)
command_line-Ends w (u ∷ ws) =
    let (t, e) = command_line-Ends u ws in
    (
      quote w ++ 32 ∷ t,
      ap (λ (s : Text). quote w ++ 32 ∷ s) e ∙ sym (append_assoc (quote w) (32 ∷ t) (b'"' ∷ [])),
    )

trim_quoted : (k : ℕ) (s : Text) → trim_left k space_runes (b'"' ∷ s) ≡ b'"' ∷ s
unfolding trim_left after_any
trim_quoted zero s = refl
trim_quoted (suc k) s = refl

trim_quoted_back : (k : ℕ) (s : Text) → trim_left k (reverse_all space_runes) (b'"' ∷ s) ≡ b'"' ∷ s
unfolding trim_left after_any
trim_quoted_back zero s = refl
trim_quoted_back (suc k) s = refl

trim_space-quoted : (s t : Text) → b'"' ∷ s ≡ t ++ b'"' ∷ [] → trim_space (b'"' ∷ s) ≡ b'"' ∷ s
unfolding trim_space
trim_space-quoted s t e =
    ap (λ (r : Text). reverse (trim_left (length (b'"' ∷ s)) (reverse_all space_runes) r))
      (ap reverse e ∙ reverse-append t (b'"' ∷ []))
    ∙ ap reverse (
        trim_quoted_back (length (b'"' ∷ s)) (reverse t)
        ∙ sym (ap reverse e ∙ reverse-append t (b'"' ∷ [])))
    ∙ reverse-reverse (b'"' ∷ s)

trim_space-command_line : (ws : List Text) → trim_space (command_line ws) ≡ command_line ws
unfolding command_line quote
trim_space-command_line [] = unfold trim_space in refl
trim_space-command_line (w ∷ []) = let (t, e) = command_line-Ends w [] in trim_space-quoted _ t e
trim_space-command_line (w ∷ u ∷ ws) =
    let (t, e) = command_line-Ends w (u ∷ ws) in trim_space-quoted _ t e

-- A line of quoted arguments is read back as the arguments, whatever bytes they hold, if none of
-- them is empty.
pub parse-command_line :
    (ws : List Text) → All IsArgument ws → parse_command_with_quotes (command_line ws) ≡ ws
unfolding parse_command_with_quotes
parse-command_line ws h =
    ap (scan (st plain [] [])) (trim_space-command_line ws)
    ∙ scan-command_line plain ws [] (inl refl) h

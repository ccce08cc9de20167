-- ===== src/Strings/Fields.antt =====
-- White space: what TrimSpace and Fields do to ASCII texts without any.
use ant_cache.Base.{
  ℕ, zero, suc, ◌+◌, ◌<◌, ◌≤◌, ◌≡◌, refl, ap, ◌∙◌, sym, arith, List, [], ◌∷◌, ◌++◌, none, Text,
  length, length-append, All, ◌≢◌, ◌-◌, join,
}
use mathlib.Core.List.{reverse, append_assoc, append-nil, reverse-append, reverse-reverse}
use ant_cache.Strings.{fields, fields_from}
use ant_cache.Utils.Quotes.{
  flush, after_any, after_prefix, space_runes, trim_left, reverse_all, trim_space,
}

-- An ASCII character that is neither white space nor a control character.
abbrev pub IsGraphic : ℕ → Type 0
IsGraphic c = (33 ≤ c) × (c < 128)

-- None of the texts begins with the byte.
abbrev HeadsApart : ℕ → List Text → Type 0
HeadsApart c [] = Unit {0}
HeadsApart c ([] ∷ ps) = ⊥
HeadsApart c ((a ∷ p) ∷ ps) = (a ≢ c) × HeadsApart c ps

after_any-none : (c : ℕ) (s : Text) (ps : List Text) → HeadsApart c ps → after_any ps (c ∷ s) ≡ none
unfolding after_any after_prefix
after_any-none c s [] h = refl
after_any-none c s ([] ∷ ps) h = elim h [ ]
after_any-none c s ((a ∷ p) ∷ ps) (ha, hs) = ground (arith, ha, after_any-none c s ps hs)

pub graphic_front : (c : ℕ) (s : Text) → IsGraphic c → after_any space_runes (c ∷ s) ≡ none
graphic_front c s h = after_any-none c s space_runes (omega arith)

graphic_back : (c : ℕ) (s : Text) → IsGraphic c → after_any (reverse_all space_runes) (c ∷ s) ≡ none
graphic_back c s h = after_any-none c s (reverse_all space_runes) (omega arith)

trim_front : (k : ℕ) (c : ℕ) (s : Text) → IsGraphic c → trim_left k space_runes (c ∷ s) ≡ c ∷ s
unfolding trim_left
trim_front zero c s h = refl
trim_front (suc k) c s h = rw (trim_left, graphic_front c s h) refl

trim_back :
    (k : ℕ) (c : ℕ) (s : Text) → IsGraphic c → trim_left k (reverse_all space_runes) (c ∷ s) ≡ c ∷ s
unfolding trim_left
trim_back zero c s h = refl
trim_back (suc k) c s h = rw (trim_left, graphic_back c s h) refl

-- A text that begins and ends with graphic characters has nothing to trim.
pub trim_space_id :
    (a b : ℕ) (s t : Text)
    → IsGraphic a
    → IsGraphic b
    → a ∷ s ≡ t ++ b ∷ []
    → trim_space (a ∷ s) ≡ a ∷ s
unfolding trim_space
trim_space_id a b s t ha hb e =
    ap (λ (r : Text). reverse (trim_left (length r) (reverse_all space_runes) (reverse r)))
      (trim_front (length (a ∷ s)) a s ha)
    ∙ ap (λ (r : Text). reverse (trim_left (length (a ∷ s)) (reverse_all space_runes) r))
        (ap reverse e ∙ reverse-append t (b ∷ []))
    ∙ ap reverse (
        trim_back (length (a ∷ s)) b (reverse t) hb
        ∙ sym (ap reverse e ∙ reverse-append t (b ∷ [])))
    ∙ reverse-reverse (a ∷ s)

-- A word: one graphic character or more.
abbrev pub IsWord : Text → Type 0
IsWord [] = ⊥
IsWord (c ∷ w) = IsGraphic c × All IsGraphic w

fields_from-graphic :
    (n : ℕ) (parts : List Text) (current : Text) (c : ℕ) (s : Text)
    → IsGraphic c
    → fields_from (suc n) parts current (c ∷ s) ≡ fields_from n parts (current ++ c ∷ []) s
unfolding fields_from
fields_from-graphic n parts current c s h = rw (fields_from, graphic_front c s h) refl

fields_from-run :
    (w s : Text) (n k : ℕ) (parts : List Text) (current : Text)
    → All IsGraphic w
    → n ≡ length w + k
    → fields_from n parts current (w ++ s) ≡ fields_from k parts (current ++ w) s
fields_from-run [] s n k parts current h fuel =
    ap (λ (m : ℕ). fields_from m parts current s) (omega arith)
    ∙ ap (λ (r : Text). fields_from k parts r s) (sym (append-nil current))
fields_from-run (c ∷ w) s zero k parts current h fuel = absurd (omega arith)
fields_from-run (c ∷ w) s (suc n) k parts current (hc, hw) fuel =
    fields_from-graphic n parts current c (w ++ s) hc
    ∙ fields_from-run w s n k parts (current ++ c ∷ []) hw (omega arith)
    ∙ ap (λ (r : Text). fields_from k parts r s) (append_assoc current (c ∷ []) w)

fields_from-end :
    (k : ℕ) (parts : List Text) (current : Text)
    → fields_from k parts current [] ≡ flush parts current
unfolding fields_from
fields_from-end zero parts current = refl
fields_from-end (suc k) parts current = refl

fields_from-space :
    (k : ℕ) (parts : List Text) (current rest : Text)
    → fields_from (suc k) parts current (32 ∷ rest) ≡ fields_from k (flush parts current) [] rest
unfolding fields_from after_any after_prefix
fields_from-space k parts current rest = refl

fields_from-join :
    (ws : List Text) (n : ℕ) (parts : List Text)
    → All IsWord ws
    → length (join ws) < n
    → fields_from n parts [] (join ws) ≡ parts ++ ws
unfolding join
fields_from-join ws zero parts h fuel = absurd (omega arith)
fields_from-join [] (suc n) parts h fuel = fields_from-end (suc n) parts [] ∙ sym (append-nil parts)
fields_from-join ((c ∷ w) ∷ []) (suc n) parts (h, _) fuel =
    ap (fields_from (suc n) parts []) (sym (append-nil (c ∷ w)))
    ∙ fields_from-run (c ∷ w) [] (suc n) (n - length w) parts [] h (omega arith)
    ∙ fields_from-end (n - length w) parts (c ∷ w)
fields_from-join ((c ∷ w) ∷ u ∷ ws) (suc n) parts (h, hs) fuel =
    let rest = join (u ∷ ws) in
    let room : length (w ++ 32 ∷ rest) ≡ length w + suc (length rest) =
      length-append w (32 ∷ rest) in
    fields_from-run (c ∷ w) (32 ∷ rest) (suc n) (suc (n - length w - 1)) parts [] h (omega arith)
    ∙ fields_from-space (n - length w - 1) parts (c ∷ w) rest
    ∙ fields_from-join (u ∷ ws) (n - length w - 1) (parts ++ (c ∷ w) ∷ []) hs (omega arith)
    ∙ append_assoc parts ((c ∷ w) ∷ []) (u ∷ ws)
fields_from-join ([] ∷ ws) (suc n) parts (h, hs) fuel = elim h [ ]

-- Fields takes words apart that were joined with spaces.
pub fields-join : (ws : List Text) → All IsWord ws → fields (join ws) ≡ ws
unfolding fields
fields-join ws h = fields_from-join ws (suc (length (join ws))) [] h (omega arith)

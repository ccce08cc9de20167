-- ===== src/Log/Values.antt =====
-- cache/persistence.go: a value that is written to the log and read back.
use ant_cache.Base.{
  All-append, ℕ, ◌≡◌, refl, sym, ap, ◌∙◌, true, false, some, List, [], ◌∷◌, ◌++◌, Text, codes,
  text_eq, All, join,
}
use mathlib.Core.Path.{subst}
use mathlib.Core.List.{reverse, reverse-cons, reverse-append, reverse-reverse}
use ant_cache.Item.{Value, nil, str, array, object, other}
use ant_cache.Strings.{has_prefix, has_suffix, trim_set, trim_left_set}
use ant_cache.Strings.Fields.{IsWord, fields-join}
use ant_cache.Utils.Quotes.{after_prefix}
use ant_cache.Persistence.{Command}
use ant_cache.Log.Lines.{IsLoggable, parse_line-show_reread}
use ant_cache.Log.{parse_line, show_command, is_bracket, show_value, parse_value, array_of}

-- The byte is no square bracket.
abbrev pub IsUnbracketed : ℕ → Type 0
IsUnbracketed c = is_bracket c ≡ false

-- The texts that stand for one value: a string that does not begin like an array or a map, and an
-- array of words without square brackets.
abbrev pub IsPlain : {P : Type 0} → Value P → Type 0
IsPlain (str s) = (has_prefix (codes "[") s ≡ false) × (has_prefix (codes "map[") s ≡ false)
IsPlain (array ws) = All IsWord ws × All IsUnbracketed (join ws)
IsPlain _ = ⊥

All-reverse : (P : ℕ → Type 0) (s : Text) → All P s → All P (reverse s)
All-reverse P [] h = tt
All-reverse P (c ∷ s) (hc, h) =
    subst (All P) (sym (reverse-cons c s))
      (All-append P (reverse s) (c ∷ []) (All-reverse P s h) (hc, tt))

trim_left_set-first :
    (c : ℕ) (s : Text) → IsUnbracketed c → trim_left_set is_bracket (c ∷ s) ≡ c ∷ s
unfolding trim_left_set
trim_left_set-first c s h = rw h refl

trim_left_set-unbracketed : (s : Text) → All IsUnbracketed s → trim_left_set is_bracket s ≡ s
unfolding trim_left_set
trim_left_set-unbracketed [] h = refl
trim_left_set-unbracketed (c ∷ s) (hc, h) = trim_left_set-first c s hc

trim_set-brackets :
    (s : Text) → All IsUnbracketed s → trim_set is_bracket (b'[' ∷ s ++ codes "]") ≡ s
unfolding trim_set trim_left_set
trim_set-brackets [] h = refl
trim_set-brackets (c ∷ s) (hc, h) =
    ap (λ (x : Text). reverse (trim_left_set is_bracket (reverse x)))
      (trim_left_set-first c (s ++ codes "]") hc)
    ∙ ap (λ (x : Text). reverse (trim_left_set is_bracket x)) (reverse-append (c ∷ s) (codes "]"))
    ∙ ap reverse
        (trim_left_set-unbracketed (reverse (c ∷ s)) (All-reverse IsUnbracketed (c ∷ s) (hc, h)))
    ∙ reverse-reverse (c ∷ s)

has_suffix-bracket : (s : Text) → has_suffix (codes "]") (b'[' ∷ s ++ codes "]") ≡ true
unfolding has_suffix after_prefix
has_suffix-bracket s = rw (reverse-append (b'[' ∷ s) (codes "]")) refl

array_of-join :
    {P : Type 0} → (ws : List Text) → All IsWord ws → array_of {P = P} (join ws) ≡ array ws
unfolding array_of join text_eq
array_of-join [] h = refl
array_of-join ((c ∷ w) ∷ []) h = ap array (fields-join ((c ∷ w) ∷ []) h)
array_of-join ((c ∷ w) ∷ u ∷ ws) h = ap array (fields-join ((c ∷ w) ∷ u ∷ ws) h)
array_of-join ([] ∷ ws) (h, _) = elim h [ ]

pub parse_value-show_value :
    {P : Type 0} → (show : P → Text) (v : Value P) → IsPlain v → parse_value (show_value show v) ≡ v
unfolding parse_value show_value has_prefix after_prefix
parse_value-show_value show (str s) (h, k) = rw (h, k) refl
parse_value-show_value show (array ws) (h, k) =
    rw (has_suffix-bracket (join ws), trim_set-brackets (join ws) k) (array_of-join ws h)
parse_value-show_value show nil h = elim h [ ]
parse_value-show_value show (object m) h = elim h [ ]
parse_value-show_value show (other p) h = elim h [ ]

-- The text that is written for a command, parsed whole as one line, is the command again: all its five
-- parts, if its numbers are int64, none of its texts holds the separator, and its value is a string that
-- does not begin like an array or a map, or an array of words without square brackets. LoadAcl parses
-- it whole only if it has no newline and 65535 bytes at most.
pub parse_line-show_command :
    {P : Type 0}
    → (show : P → Text) (cmd : Command P) → IsLoggable show cmd
    → IsPlain cmd.value
    → parse_line (show_command show cmd) ≡ some cmd
parse_line-show_command show cmd h plain =
    parse_line-show_reread show cmd h
    ∙ ap (λ v. some (record cmd { value = v })) (parse_value-show_value show cmd.value plain)

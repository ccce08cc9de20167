-- ===== src/Log/Lines.antt =====
-- cache/persistence.go: a command that is written to the log and read back.
use ant_cache.Base.{
  ℕ, ◌≡◌, refl, sym, ap, ◌∙◌, false, some, [], ◌∷◌, ◌++◌, arith, Text, text_eq, All, IsInt64,
}
use mathlib.Core.Path.{subst}
use mathlib.Core.List.{append_assoc}
use ant_cache.Persistence.{Command}
use ant_cache.Strings.{split, show_int}
use ant_cache.Strings.Split.{Without, split_last, split_next}
use ant_cache.Strings.Fields.{IsGraphic, trim_space_id}
use ant_cache.Strings.Decimal.{IsNumeral, IsWritten, show_int-IsWritten, atoi-show_int}
use ant_cache.Utils.Quotes.{trim_space}
use ant_cache.Log.{bar, show_value, show_command, parse_value, parse_parts, parse_line}

-- The numbers are int64, and no text holds the separator.
pub record IsLoggable {P : Type 0} (show : P → Text) (cmd : Command P) : Type 0 where
  pub timestamp : IsInt64 cmd.timestamp
  pub ttl : IsInt64 cmd.ttl
  pub type : Without bar cmd.type
  pub key : Without bar cmd.key
  pub value : Without bar (show_value show cmd.value)

written-Without : (s : Text) → All IsNumeral s → Without bar s
written-Without [] h = tt
written-Without (c ∷ s) (hc, h) = (omega arith, written-Without s h)

-- The text ends with a numeral.
abbrev pub EndsNumeral : Text → Type 0
EndsNumeral s = (t : Text) × (b : ℕ) × (s ≡ t ++ b ∷ []) × (IsNumeral b)

EndsNumeral-append : (s x : Text) → EndsNumeral x → EndsNumeral (s ++ x)
EndsNumeral-append s x (t, b, e, h) =
    (s ++ t, b, ap (λ (y : Text). s ++ y) e ∙ sym (append_assoc s t (b ∷ [])), h)

EndsNumeral-All : (a : ℕ) (r : Text) → All IsNumeral (a ∷ r) → EndsNumeral (a ∷ r)
EndsNumeral-All a [] (h, _) = ([], a, refl, h)
EndsNumeral-All a (c ∷ r) (h, hs) = EndsNumeral-append (a ∷ []) (c ∷ r) (EndsNumeral-All c r hs)

written-EndsNumeral : (s : Text) → IsWritten s → EndsNumeral s
written-EndsNumeral s (a, r, e, h) =
    subst EndsNumeral (sym e) (EndsNumeral-All a r (subst (All IsNumeral) e h))

numeral-IsGraphic : (c : ℕ) → IsNumeral c → IsGraphic c
numeral-IsGraphic c h = omega arith

-- A text that begins with a number and ends with a numeral has nothing to trim, and is not empty.
trim_space-number :
    (s x : Text)
    → IsWritten s
    → EndsNumeral (s ++ x)
    → (trim_space (s ++ x) ≡ s ++ x) × (text_eq (s ++ x) [] ≡ false)
unfolding text_eq
trim_space-number s x (a, r, es, hs) (t, b, e, hb) =
    let (ha, _) = subst (All IsNumeral) es hs in
    let front : s ++ x ≡ a ∷ (r ++ x) = ap (λ (y : Text). y ++ x) es in
    (
      ap trim_space front
          ∙ trim_space_id a b (r ++ x) t (numeral-IsGraphic a ha) (numeral-IsGraphic b hb)
              (sym front ∙ e)
          ∙ sym front,
      ap (λ (y : Text). text_eq y []) front,
    )

EndsNumeral-part : (w x : Text) → EndsNumeral x → EndsNumeral (w ++ bar ∷ x)
EndsNumeral-part w x e = EndsNumeral-append w (bar ∷ x) (EndsNumeral-append (bar ∷ []) x e)

-- The five parts of a line.
split_five :
    (a b c d e : Text)
    → Without bar a
    → Without bar b
    → Without bar c
    → Without bar d
    → Without bar e
    → split bar (a ++ bar ∷ (b ++ bar ∷ (c ++ bar ∷ (d ++ bar ∷ e)))) ≡ a ∷ b ∷ c ∷ d ∷ e ∷ []
split_five a b c d e ha hb hc hd he =
    rw
      (
        split_next bar a (b ++ bar ∷ (c ++ bar ∷ (d ++ bar ∷ e))) ha,
        split_next bar b (c ++ bar ∷ (d ++ bar ∷ e)) hb,
        split_next bar c (d ++ bar ∷ e) hc,
        split_next bar d e hd,
        split_last bar e he,
      )
      refl

pub show_command-EndsNumeral :
    {P : Type 0} → (show : P → Text) (cmd : Command P) → EndsNumeral (show_command show cmd)
unfolding show_command
show_command-EndsNumeral show cmd =
    let ttl = show_int cmd.ttl in
    let value = show_value show cmd.value in
    EndsNumeral-part (show_int cmd.timestamp)
      (cmd.type ++ bar ∷ (cmd.key ++ bar ∷ (value ++ bar ∷ ttl)))
      (EndsNumeral-part cmd.type (cmd.key ++ bar ∷ (value ++ bar ∷ ttl)) (
        EndsNumeral-part cmd.key (value ++ bar ∷ ttl)
          (EndsNumeral-part value ttl (written-EndsNumeral ttl (show_int-IsWritten cmd.ttl)))))

-- What is read back: the same command, its value read from the text that was written.
abbrev pub reread : {P : Type 0} → (P → Text) → Command P → Command P
reread show cmd = record cmd { value = parse_value (show_value show cmd.value) }

pub parse_line-show_reread :
    {P : Type 0}
    → (show : P → Text) (cmd : Command P) → IsLoggable show cmd
    → parse_line (show_command show cmd) ≡ some (reread show cmd)
unfolding parse_line show_command
parse_line-show_reread show cmd h =
    let ts = show_int cmd.timestamp in
    let ttl = show_int cmd.ttl in
    let value = show_value show cmd.value in
    let ends = show_command-EndsNumeral show cmd in
    let (trim, full) =
      trim_space-number ts (bar ∷ (cmd.type ++ bar ∷ (cmd.key ++ bar ∷ (value ++ bar ∷ ttl))))
        (show_int-IsWritten cmd.timestamp) ends in
    let (_, _, _, hts) = show_int-IsWritten cmd.timestamp in
    let (_, _, _, httl) = show_int-IsWritten cmd.ttl in
    let parts =
      split_five ts cmd.type cmd.key value ttl (written-Without ts hts) h.type h.key h.value
        (written-Without ttl httl) in
    rw (trim, full)
      (ap parse_parts parts
        ∙ rw (atoi-show_int cmd.timestamp h.timestamp, atoi-show_int cmd.ttl h.ttl) refl)

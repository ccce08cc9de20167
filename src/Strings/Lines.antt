-- ===== src/Strings/Lines.antt =====
-- Lines that are written one after the other and scanned.
use ant_cache.Base.{
  ℕ, ◌≤◌, ◌≡◌, refl, ap, ◌∙◌, ◌≢◌, true, List, [], ◌∷◌, ◌++◌, arith, Text, length, All,
}
use mathlib.Core.List.{reverse, reverse-append}
use ant_cache.Utils.Quotes.{after_prefix}
use ant_cache.Strings.{split, scan_pieces, scan_lines, drop_cr, onto_lines, back}
use ant_cache.Strings.Split.{Without, split_next}

-- Each line with a newline behind it.
abbrev pub unlines : List Text → Text
unlines [] = []
unlines (s ∷ lines) = s ++ 10 ∷ unlines lines

-- A line that a scanner gives as it was written: without a newline, of 65535 bytes at most, and
-- ending with another byte than a carriage return.
abbrev pub IsLine : Text → Type 0
IsLine s = Without 10 s × (length s ≤ 65535) × ((t : Text) × (b : ℕ) × (s ≡ t ++ b ∷ []) × (b ≢ 13))

drop_cr_id : (s t : Text) (b : ℕ) → s ≡ t ++ b ∷ [] → b ≢ 13 → drop_cr s ≡ s
unfolding after_prefix
drop_cr_id s t b e h =
    ap (λ r. back s (after_prefix (13 ∷ []) r)) (ap reverse e ∙ reverse-append t (b ∷ []))
    ∙ ground (arith, h)

scan_pieces-line :
    (s : Text) (pieces : List Text)
    → IsLine s
    → scan_pieces (s ∷ pieces) ≡ onto_lines s (scan_pieces pieces)
unfolding scan_pieces
scan_pieces-line [] pieces (_, _, ([], b, e, _)) = cc e
scan_pieces-line [] pieces (_, _, (c ∷ t, b, e, _)) = cc e
scan_pieces-line (c ∷ s) pieces (_, h, _) = ground arith

-- The scanner takes lines apart that were written with newlines.
pub scan_lines-unlines :
    (lines : List Text) → All IsLine lines → scan_lines (unlines lines) ≡ (lines, true)
unfolding scan_lines split scan_pieces
scan_lines-unlines [] h = refl
scan_lines-unlines (s ∷ lines) (h, hs) =
    let (without, _, (t, b, e, other)) = h in
    ap scan_pieces (split_next 10 s (unlines lines) without)
    ∙ scan_pieces-line s (split 10 (unlines lines)) h
    ∙ ap (onto_lines s) (unfold scan_lines in scan_lines-unlines lines hs)
    ∙ ap (λ x. (x ∷ lines, true)) (drop_cr_id s t b e other)

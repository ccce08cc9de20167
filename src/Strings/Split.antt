-- ===== src/Strings/Split.antt =====
-- Splitting at a separator what was joined with it.
use ant_cache.Base.{ℕ, ◌≡◌, ◌≢◌, refl, arith, [], ◌∷◌, ◌++◌, Text, All}
use ant_cache.Strings.{split}

-- The byte does not stand in the text.
abbrev pub Without : ℕ → Text → Type 0
Without sep s = All (λ c. c ≢ sep) s

pub split_last : (sep : ℕ) (w : Text) → Without sep w → split sep w ≡ w ∷ []
unfolding split
split_last sep [] h = refl
split_last sep (c ∷ w) (hc, hw) = ground (arith, hc, split_last sep w hw)

pub split_next : (sep : ℕ) (w s : Text) → Without sep w → split sep (w ++ sep ∷ s) ≡ w ∷ split sep s
unfolding split
split_next sep [] s h = ground arith
split_next sep (c ∷ w) s (hc, hw) = ground (arith, hc, split_next sep w s hw)

pub Without-append : (sep : ℕ) (a b : Text) → Without sep a → Without sep b → Without sep (a ++ b)
Without-append sep [] b ha hb = hb
Without-append sep (c ∷ a) b (hc, ha) hb = (hc, Without-append sep a b ha hb)

-- ===== src/Tests/Lines.antt =====
-- The theorems on command lines and times to live at concrete lines.
use ant_cache.Base.{pos, ◌≡◌, ◌*◌, ◌++◌, refl, arith, List, [], ◌∷◌, some, Text, codes}
use ant_cache.Utils.Quotes.{parse_command_with_quotes}
use ant_cache.Utils.Quotes.RoundTrip.{command_line, parse-command_line}
use ant_cache.Utils.Ttl.{parse_ttl, digits_value}
use ant_cache.Utils.Ttl.Units.{unit_seconds, parse_ttl-unit}

abbrev words : List Text
words = codes "SET" ∷ codes "a key" ∷ (b'"' ∷ 92 ∷ 10 ∷ []) ∷ []

parse-command_line_example : parse_command_with_quotes (command_line words) ≡ words
parse-command_line_example = parse-command_line words (refl, (refl, (refl, tt)))

parse_ttl-unit_example :
    parse_ttl (codes "90" ++ b'm' ∷ []) ≡ some (pos (90 * (unit_seconds b'm' * 1000000000)))
unfolding digits_value unit_seconds
parse_ttl-unit_example = parse_ttl-unit (codes "90") 90 b'm' refl (omega arith) (omega arith)

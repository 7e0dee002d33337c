-- ===== src/Tests/Filter.antt =====
-- A filter read from a text, and texts that are read.
use geu_reflector.Base.{◌≡◌, true, [], ◌∷◌, ◌↔◌, ◌⊎◌}
use geu_reflector.TgFilter.Entry.{TgFilter, exact, range, matches}
use geu_reflector.TgFilter.Matches.{matches_iff, Covered}

abbrev some_filter : TgFilter
some_filter = exact 240 ∷ range 100 200 ∷ []

matches_iff_example :
    (matches 150 some_filter ≡ true) ↔ ((some_filter ≡ []) ⊎ Covered 150 some_filter)
matches_iff_example = matches_iff 150 some_filter

-- ===== src/Std/Tests.antt =====
-- The functions of std at concrete inputs.
use posixutils_rs.Prelude.{◌≡◌, refl, [], ◌∷◌}
use posixutils_rs.Std.Strings.{codes, lines, split, without_cr}

lines_test : lines (codes "ab\r\n\nc") ≡ codes "ab" ∷ [] ∷ codes "c" ∷ []
unfolding lines without_cr
lines_test = refl

split_test : split 32 (codes "a  b") ≡ codes "a" ∷ [] ∷ codes "b" ∷ []
unfolding split
split_test = refl

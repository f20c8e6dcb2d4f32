-- ===== src/Text/Expand/Tests.antt =====
-- `expand` and its theorem at concrete inputs.
use posixutils_rs.Prelude.{◌≡◌, refl, [], ◌∷◌, some, none}
use posixutils_rs.Std.Strings.{Str, codes, split}
use posixutils_rs.Std.Numerals.{parse_usize, decimal, decimal_digits}
use posixutils_rs.Text.Expand.{
  uni_stop, stops, parsed, invalid_order, parse_tablist, parse_stops, space_while, tab,
  tab_to_stops, expand_byte, expand_bytes, expand_file,
}
use posixutils_rs.Text.Expand.Plain.{Expanded, expand_file-Expanded}

abbrev file : Str
file = 97 ∷ 9 ∷ 98 ∷ 9 ∷ 10 ∷ []

expand_test : expand_file (uni_stop 4) file ≡ some (codes "a   b   \n")
unfolding expand_file expand_bytes expand_byte tab space_while
expand_test = refl

tablist_test : parse_tablist (codes "2,4 8") ≡ parsed (stops (2 ∷ 4 ∷ 8 ∷ []))
unfolding parse_tablist parse_stops parse_usize decimal decimal_digits split
tablist_test = refl

order_test : parse_tablist (codes "4,2") ≡ invalid_order
unfolding parse_tablist parse_stops parse_usize decimal decimal_digits split
order_test = refl

-- The third tab is looked up in a list of two stops.
third_tab : expand_file (stops (2 ∷ 4 ∷ [])) (9 ∷ 9 ∷ 9 ∷ []) ≡ none
unfolding expand_file expand_bytes expand_byte tab tab_to_stops space_while
third_tab = refl

width_zero : expand_file (uni_stop 0) file ≡ none
unfolding expand_file expand_bytes expand_byte tab
width_zero = refl

expand_file-Expanded_example :
    (out : Str) × ((expand_file (uni_stop 4) file ≡ some out) × Expanded 4 1 file out)
expand_file-Expanded_example = expand_file-Expanded 3 file

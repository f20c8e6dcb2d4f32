-- ===== src/Text/Uniq/Tests.antt =====
-- `uniq` and its theorem at concrete inputs.
use posixutils_rs.Prelude.{◌≡◌, refl, List, [], ◌∷◌, map, All, true, false, none, some}
use mathlib.Core.List.{flatten}
use posixutils_rs.Std.Strings.{Str, codes, str_eq}
use posixutils_rs.Std.Chars.{len}
use posixutils_rs.Std.Numerals.{show_digits}
use posixutils_rs.Text.Uniq.{
  Args, len, slice_from, skip_fields, process_line, output_result, uniq_from, uniq,
}
use posixutils_rs.Text.Uniq.Groups.{
  Group, members, written, HasKey, IsUniform, AreApart, uniq-groups,
}

abbrev counting : Args
counting = record { count = true; repeated = false; unique = false; fields = some 1; chars = none }

abbrev file : List Str
file = codes "a x" ∷ codes "b x" ∷ codes "b y" ∷ []

uniq_test : uniq counting file ≡ some (codes "2 a x\n1 b y\n")
unfolding uniq uniq_from process_line skip_fields output_result str_eq show_digits
uniq_test = refl

abbrev skipping : Args
skipping = record { count = false; repeated = false; unique = false; fields = none; chars = some 1 }

-- 233 has two bytes, and the second is no beginning of a character.
uniq_panics : uniq skipping ((233 ∷ 97 ∷ []) ∷ []) ≡ none
unfolding uniq uniq_from process_line len slice_from
uniq_panics = refl

file-HasKey : All (HasKey counting) file
unfolding process_line skip_fields
file-HasKey = ((_, refl), ((_, refl), ((_, refl), tt)))

uniq-groups_example :
    (groups : List Group) × ((flatten (map members groups) ≡ file)
      × All (IsUniform counting) groups
      × AreApart counting groups
      × (uniq counting file ≡ some (flatten (map (written counting) groups))))
uniq-groups_example = uniq-groups counting file file-HasKey

-- ===== src/Text/Unexpand/Tests.antt =====
-- `unexpand` and its theorem at concrete inputs.
use posixutils_rs.Prelude.{◌≡◌, refl, [], ◌∷◌, true, false, some, none, arith, ◌>>=◌}
use mathlib.Core.List.{flatten}
use posixutils_rs.Std.Strings.{Str, codes, split, lines, terminated, without_cr, Free}
use posixutils_rs.Std.Numerals.{parse_usize, decimal, decimal_digits}
use posixutils_rs.Text.Expand.{uni_stop, space_while, tab, expand_byte, expand_bytes, expand_file}
use posixutils_rs.Text.Unexpand.{
  parse_stops, parse_tablist, space_count, skip_spaces, fill_to, fill, convert_leading_blanks,
  split_from, split_whitespaces, tabs_for, convert_spaces_to_tabs, convert_all_blanks, unexpand,
}
use posixutils_rs.Text.Unexpand.Expanded.{expand_file-convert_leading_blanks}

-- Twenty spaces are one tab and twelve spaces.
one_tab_test :
    convert_leading_blanks (codes "                    a") (8 ∷ []) ≡ 9 ∷ codes "            a"
unfolding convert_leading_blanks fill fill_to space_count skip_spaces
one_tab_test = refl

-- Nine spaces reach column 9, and the two tabs and two spaces column 12.
stops_test : convert_leading_blanks (codes "         a") (4 ∷ 10 ∷ 12 ∷ []) ≡ 9 ∷ 9 ∷ codes "  a"
unfolding convert_leading_blanks fill fill_to space_count skip_spaces
stops_test = refl

-- The tab goes on to column 9, where the spaces went to column 10.
all_blanks_test :
    (unexpand true none (codes "a        b\n") >>= λ text. expand_file (uni_stop 8) text)
    ≡ some (codes "a       b\n")
unfolding unexpand convert_all_blanks split_whitespaces split_from convert_spaces_to_tabs tabs_for
    space_count skip_spaces lines terminated without_cr split flatten expand_file expand_bytes
    expand_byte tab space_while
all_blanks_test = refl

tablist_test : unexpand false (some (codes "4,x")) (codes "a") ≡ none
unfolding unexpand parse_tablist parse_stops parse_usize decimal decimal_digits split
tablist_test = refl

abbrev line : Str
line = codes "          ab"

line-Free : Free 9 line
line-Free = (
  (λ e. omega arith),
  (
    (λ e. omega arith),
    (
      (λ e. omega arith),
      (
        (λ e. omega arith),
        (
          (λ e. omega arith),
          (
            (λ e. omega arith),
            (
              (λ e. omega arith),
              (
                (λ e. omega arith),
                (
                  (λ e. omega arith),
                  ((λ e. omega arith), ((λ e. omega arith), ((λ e. omega arith), tt))),
                ),
              ),
            ),
          ),
        ),
      ),
    ),
  ),
)

expand_file-convert_leading_blanks_example :
    expand_file (uni_stop 8) (convert_leading_blanks line (8 ∷ [])) ≡ some line
expand_file-convert_leading_blanks_example = expand_file-convert_leading_blanks 7 line line-Free

-- ===== src/Text/Fold/Tests.antt =====
-- `fold` and its theorems at concrete inputs.
use posixutils_rs.Prelude.{◌≡◌, refl, [], ◌∷◌, true, some, All, arith}
use mathlib.Core.List.{reverse}
use mathlib.Core.Option
use posixutils_rs.Std.Strings.{codes}
use posixutils_rs.Text.Fold.{
  Args, OutputState, next_column, find_blank, find_last_blank, column_after, round, inner,
  fold_char, fold_chars, fold_file,
}
use posixutils_rs.Text.Fold.Loop.{Holds}
use posixutils_rs.Text.Fold.Folded.{Folded, output, fold_file-Folded}
use posixutils_rs.Text.Fold.Width.{IsWithin, fold_file_width}

abbrev args : Args
args = record { bytes = true; spaces = true; width = 5 }

-- The line is broken behind its second byte, where its last blank is the second from the end.
spaces_test :
    Option.map (λ (st : OutputState). st.written) (fold_file args (codes "abc def\n"))
    ≡ some (codes "ab\n" ∷ codes "c def\n" ∷ [])
unfolding fold_file fold_chars fold_char inner round next_column find_last_blank find_blank
    column_after reverse
spaces_test = refl

-- A last line without a line feed is not written.
lost_line : Option.map (λ (st : OutputState). st.written) (fold_file args (codes "abc")) ≡ some []
unfolding fold_file fold_chars fold_char inner round next_column
lost_line = refl

fold_file-Folded_example :
    Holds (λ st. Folded (codes "abc def\n") (output st)) (fold_file args (codes "abc def\n"))
fold_file-Folded_example = fold_file-Folded args (codes "abc def\n")

fold_file_width_example :
    Holds (λ st. All (IsWithin 5) st.written) (fold_file args (codes "abc def\n"))
fold_file_width_example = fold_file_width true 5 (codes "abc def\n") (omega arith)

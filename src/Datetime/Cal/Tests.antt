-- ===== src/Datetime/Cal/Tests.antt =====
-- `cal` and its theorems at concrete inputs.
use posixutils_rs.Prelude.{◌≡◌, refl, ◌∷◌, some, arith}
use posixutils_rs.Datetime.Cal.{heading, weekdays, days_in_month, is_leap, print_month}
use posixutils_rs.Datetime.Cal.Rows.{rows, print_month_lem}

leap_test : days_in_month 2 2000 ≡ 29
unfolding days_in_month is_leap
leap_test = refl

common_test : days_in_month 2 1900 ≡ 28
unfolding days_in_month is_leap
common_test = refl

print_month_lem_example : print_month 2 2024 ≡ some (heading 2 2024 ∷ weekdays ∷ rows 29)
print_month_lem_example = print_month_lem 2 2024 (omega arith) (omega arith)

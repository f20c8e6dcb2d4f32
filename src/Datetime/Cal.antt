-- ===== src/Datetime/Cal.antt =====
-- datetime/cal.rs: `print_month`, `print_year` and the arguments of `main`.
pub mod Layout
pub mod Rows
mod Tests
use posixutils_rs.Prelude.{
  ℕ, zero, suc, ◌+◌, ◌%◌, List, [], ◌∷◌, ◌++◌, Bool, ◌&&◌, ◌||◌, not, ltb, leb, ◌==◌, if◌then◌else◌,
  Option, none, some, ◌>>=◌,
}

-- What is printed: the name of the month and the year, the names of the days of the week, a day, a
-- space, the end of a line.
pub data Piece : Type 0 where
  heading : ℕ → ℕ → Piece
  weekdays newline space : Piece
  day : ℕ → Piece

pub is_leap : ℕ → Bool
is_leap year = year % 4 == 0 && (not (year % 100 == 0) || year % 400 == 0)

pub days_in_month : ℕ → ℕ → ℕ
days_in_month month year =
    if month == 4 || month == 6 || month == 9 || month == 11
    then 30
    else if month == 2
    then (if is_leap year then 29 else 28)
    else 31

-- The `while` and what comes after it; `none` is fuel that ran out.
pub print_days : ℕ → ℕ → ℕ → ℕ → Option (List Piece)
print_days zero n d weekday = none
print_days (suc fuel) n d weekday =
    let ends = ltb 7 (weekday + 1) in
    let rest = print_days fuel n (d + 1) (if ends then 1 else weekday + 1) in
    if leb d n
    then (do ps ← rest; some (day d ∷ (if ends then newline else space) ∷ ps))
    else some (if not (weekday == 1) then newline ∷ [] else [])

-- `none` is `unreachable!()`. A round prints a day, so the rounds are enough.
pub print_month : ℕ → ℕ → Option (List Piece)
print_month month year =
    let n = days_in_month month year in
    if leb 1 month && leb month 12
    then (do ps ← print_days (suc n) n 1 1; some (heading month year ∷ weekdays ∷ ps))
    else none

-- The `for` of `print_year`, with the number of months to go.
pub print_months : ℕ → ℕ → ℕ → Option (List Piece)
print_months zero month year = some []
print_months (suc count) month year = do
  ps ← print_month month year
  rest ← print_months count (month + 1) year
  some (ps ++ newline ∷ rest)

pub print_year : ℕ → Option (List Piece)
print_year year = print_months 12 1 year

-- How `main` ends; the clock gives the month and the year of `chrono::Local::now`.
pub data Outcome : Type 0 where
  printed : List Piece → Outcome
  bad_year bad_month unreachable : Outcome

-- The arguments after the two tests for missing ones.
pub fill_in : ℕ × ℕ → Option ℕ → Option ℕ → Option ℕ × Option ℕ
fill_in clock none none = (some clock.0, some clock.1)
fill_in clock (some month) none = (none, some month)
fill_in clock month (some year) = (month, some year)

abbrev pub or_unreachable : Option (List Piece) → Outcome
or_unreachable none = unreachable
or_unreachable (some ps) = printed ps

pub run_cal : Option ℕ → Option ℕ → Outcome
run_cal month none = unreachable
run_cal none (some year) = if ltb 9999 year then bad_year else or_unreachable (print_year year)
run_cal (some month) (some year) =
    if ltb 9999 year
    then bad_year
    else if ltb 12 month
    then bad_month
    else or_unreachable (print_month month year)

pub cal : ℕ × ℕ → Option ℕ → Option ℕ → Outcome
cal clock month year = let (m, y) = fill_in clock month year in run_cal m y

-- ===== src/Datetime/Cal/Rows.antt =====
-- The calendar of a month, row by row, and that `print_month` prints it.
use posixutils_rs.Prelude.{
  ℕ, zero, suc, ◌+◌, ◌-◌, ◌%◌, Bool-cases, ◌≤◌, ◌≡◌, refl, ap, ◌∙◌, List, [], ◌∷◌, ◌++◌, ◌==◌,
  if◌then◌else◌, some, map, length, arith, inl, inr, ◌⊎◌,
}
use mathlib.Core.List.{flatten}
use posixutils_rs.Std.Chunks.{chunks, chunks_of}
use posixutils_rs.Prelude.Bits.{agree_below, agree_below→eq}
use posixutils_rs.Datetime.Cal.{
  Piece, heading, weekdays, newline, space, day, is_leap, days_in_month, print_month,
}
use posixutils_rs.Datetime.Cal.Layout.{layout, print_month-layout}

-- The days of February: every fourth year is a leap year, but of the centuries every fourth only.
abbrev pub february : ℕ → ℕ
february year =
    if year % 400 == 0 then 29 else if year % 100 == 0 then 28 else if year % 4 == 0 then 29 else 28

-- The months of the calendar.
abbrev pub months : ℕ → List ℕ
months year = 31 ∷ february year ∷ 31 ∷ 30 ∷ 31 ∷ 30 ∷ 31 ∷ 31 ∷ 30 ∷ 31 ∷ 30 ∷ 31 ∷ []

abbrev entry : List ℕ → ℕ → ℕ
entry [] i = 0
entry (n ∷ ns) zero = n
entry (n ∷ ns) (suc i) = entry ns i

abbrev pub month_length : ℕ → ℕ → ℕ
month_length year month = entry (months year) (month - 1)

-- `count` numbers from `first` on.
abbrev pub days_from : ℕ → ℕ → List ℕ
days_from first zero = []
days_from first (suc count) = first ∷ days_from (first + 1) count

-- Days with a space behind each, and with spaces between them.
abbrev pub spaced : List ℕ → List Piece
spaced [] = []
spaced (d ∷ ds) = day d ∷ space ∷ spaced ds

abbrev pub joined : List ℕ → List Piece
joined [] = []
joined (d ∷ []) = day d ∷ []
joined (d ∷ e ∷ ds) = day d ∷ space ∷ joined (e ∷ ds)

-- A full week has no space at the end of its line, a shorter one has.
abbrev pub row : List ℕ → List Piece
row ds = (if length ds == 7 then joined ds else spaced ds) ++ newline ∷ []

-- The days of a month in rows of a week, of which the last may be shorter.
abbrev pub rows : ℕ → List Piece
rows count = flatten (map row (chunks 7 (days_from 1 count)))

layout-rows :
    (count : ℕ)
    → (count ≡ 28) ⊎ (count ≡ 29) ⊎ (count ≡ 30) ⊎ (count ≡ 31)
    → layout count 1 ≡ rows count
unfolding layout flatten chunks chunks_of
layout-rows count (inl e) = rw e refl
layout-rows count (inr (inl e)) = rw e refl
layout-rows count (inr (inr (inl e))) = rw e refl
layout-rows count (inr (inr (inr e))) = rw e refl

days_in_month-cases :
    (month year : ℕ) → let n = days_in_month month year in (n ≡ 28) ⊎ (n ≡ 29) ⊎ (n ≡ 30) ⊎ (n ≡ 31)
unfolding days_in_month
days_in_month-cases month year = ground arith

february-leap : (year : ℕ) → february year ≡ (if is_leap year then 29 else 28)
unfolding is_leap
february-leap year = ground arith

-- Every year has the months of the year 4 or of the year 1.
days_in_month-month_length :
    (month year : ℕ) → month ≤ 12 → days_in_month month year ≡ month_length year month
unfolding days_in_month is_leap agree_below
days_in_month-month_length month year hi = elim (Bool-cases (is_leap year)) [
  | inl e ↦
      rw (february-leap year, e)
        (agree_below→eq (λ m. days_in_month m 4) (month_length 4) 13 refl month (omega arith))
  | inr e ↦
      rw (february-leap year, e)
        (agree_below→eq (λ m. days_in_month m 1) (month_length 1) 13 refl month (omega arith))
]

-- For every month from 1 to 12 and every year, `print_month` ends; behind its two heading lines it prints the
-- days from 1 to the last that the month has in the Gregorian calendar, each once and in order, in rows of
-- seven from the first row on, whatever the day of the week on which the month begins. The last row has the
-- days that are left, if any; it alone has a space at its end.
pub print_month_lem :
    (month year : ℕ)
    → 1 ≤ month
    → month ≤ 12
    → print_month month year ≡ some (heading month year ∷ weekdays ∷ rows (month_length year month))
print_month_lem month year lo hi =
    let n = days_in_month month year in
    print_month-layout month year lo hi
    ∙ ap (λ (ps : List Piece). some (heading month year ∷ weekdays ∷ ps))
        (layout-rows n (days_in_month-cases month year)
          ∙ ap rows (days_in_month-month_length month year hi))

-- ===== src/Datetime/Cal/Layout.antt =====
-- The layout of a month, and the ways in which `cal` ends.
use posixutils_rs.Prelude.{
  ℕ, zero, suc, ◌+◌, ◌-◌, ◌%◌, ◌<◌, ◌≤◌, ◌≡◌, ◌≢◌, refl, List, [], ◌∷◌, ◌++◌, not, ltb, ◌==◌,
  if◌then◌else◌, Option, none, some, arith, Bool-cases, inl, inr,
}
use posixutils_rs.Datetime.Cal.{
  Piece, heading, weekdays, newline, space, day, is_leap, days_in_month, print_days, print_month,
  print_months, print_year, unreachable, or_unreachable, fill_in, run_cal, cal,
}

-- `count` days from `d` on, where a line ends behind every day that 7 divides, and behind the last.
unfoldable pub layout : ℕ → ℕ → List Piece
layout zero d = if not ((d - 1) % 7 == 0) then newline ∷ [] else []
layout (suc count) d = day d ∷ (if d % 7 == 0 then newline else space) ∷ layout count (d + 1)

print_days-layout :
    (count fuel n d weekday : ℕ)
    → count < fuel
    → 0 < d
    → d + count ≡ n + 1
    → weekday ≡ (d - 1) % 7 + 1
    → print_days fuel n d weekday ≡ some (layout count d)
unfolding print_days layout
print_days-layout count zero n d weekday h p e w = absurd (omega arith)
print_days-layout zero (suc fuel) n d weekday h p e w = ground arith
print_days-layout (suc count) (suc fuel) n d weekday h p e w =
    elim (Bool-cases (ltb 7 (weekday + 1))) [
      | inl y ↦
          let last : weekday ≡ 7 = ground arith in
          let ih =
            print_days-layout count fuel n (d + 1) 1 (omega arith) (omega arith) (omega arith)
              (omega arith) in
          ground (arith, ih)
      | inr low ↦
          let before : weekday < 7 = ground arith in
          let ih =
            print_days-layout count fuel n (d + 1) (weekday + 1) (omega arith) (omega arith)
              (omega arith) (omega arith) in
          ground (arith, ih)
    ]

pub print_month-layout :
    (month year : ℕ)
    → 1 ≤ month
    → month ≤ 12
    → print_month month year
      ≡ some (heading month year ∷ weekdays ∷ layout (days_in_month month year) 1)
unfolding print_month
print_month-layout month year lo hi = ground (
  arith,
  print_days-layout (days_in_month month year) (suc (days_in_month month year))
      (days_in_month month year) 1 1 (omega arith) (omega arith) (omega arith) (omega arith),
)

print_months-some :
    (count month year : ℕ)
    → 1 ≤ month
    → month + count ≤ 13
    → (ps : List Piece) × (print_months count month year ≡ some ps)
unfolding print_months
print_months-some zero month year lo hi = ([], refl)
print_months-some (suc count) month year lo hi =
    let (ps, e) = print_months-some count (month + 1) year (omega arith) (omega arith) in
    (
      (heading month year ∷ weekdays ∷ layout (days_in_month month year) 1) ++ newline ∷ ps,
      rw (print_month-layout month year lo (omega arith), e) refl,
    )

-- What the arguments may be: the parser of the arguments lets through numbers from 1 on.
abbrev pub FromOne : Option ℕ → Type 0
FromOne none = Unit
FromOne (some n) = 1 ≤ n

or_unreachable-some :
    (o : Option (List Piece)) (ps : List Piece) → o ≡ some ps → or_unreachable o ≢ unreachable
or_unreachable-some o ps e = rw e λ d. cc

run_cal-ne-unreachable :
    (month : Option ℕ) (year : ℕ) → FromOne month → run_cal month (some year) ≢ unreachable
unfolding run_cal print_year
run_cal-ne-unreachable none year h =
    let (ps, e) = print_months-some 12 1 year (omega arith) (omega arith) in
    elim (Bool-cases (ltb 9999 year)) [
      | inl y ↦ rw y λ d. cc
      | inr low ↦ rw low (or_unreachable-some _ ps e)
    ]
run_cal-ne-unreachable (some month) year h = elim (Bool-cases (ltb 9999 year)) [
  | inl y ↦ rw y λ d. cc
  | inr low ↦ elim (Bool-cases (ltb 12 month)) [
    | inl y ↦ rw (low, y) λ d. cc
    | inr small ↦
        rw (low, small) (or_unreachable-some _ _ (print_month-layout month year h (ground arith)))
  ]
]

-- For a clock with a month from 1 on, and arguments from 1 on or none, `cal` prints a calendar or reports
-- that the year or the month is out of range: the two `unreachable!()` are not reached.
pub cal-ne-unreachable :
    (clock : ℕ × ℕ) (month year : Option ℕ)
    → 1 ≤ clock.0
    → FromOne month
    → FromOne year
    → cal clock month year ≢ unreachable
unfolding cal fill_in
cal-ne-unreachable clock none none c m y = run_cal-ne-unreachable (some clock.0) clock.1 c
cal-ne-unreachable clock (some month) none c m y = run_cal-ne-unreachable none month tt
cal-ne-unreachable clock none (some year) c m y = run_cal-ne-unreachable none year tt
cal-ne-unreachable clock (some month) (some year) c m y = run_cal-ne-unreachable (some month) year m

-- The days of the twelve months make 366 in a leap year, else 365: a year that 4 divides, but not 100,
-- unless 400 does.
pub year_length :
    (year : ℕ)
    → days_in_month 1 year
        + days_in_month 2 year
        + days_in_month 3 year
        + days_in_month 4 year
        + days_in_month 5 year
        + days_in_month 6 year
        + days_in_month 7 year
        + days_in_month 8 year
        + days_in_month 9 year
        + days_in_month 10 year
        + days_in_month 11 year
        + days_in_month 12 year
      ≡ (if year % 400 == 0
          then 366
          else if year % 100 == 0
          then 365
          else if year % 4 == 0
          then 366
          else 365)
unfolding days_in_month is_leap
year_length year = ground arith

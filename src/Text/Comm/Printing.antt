-- ===== src/Text/Comm/Printing.antt =====
-- What `comm` prints of its columns under its flags.
use posixutils_rs.Prelude.{
  ℕ, ◌≡◌, refl, List, [], ◌∷◌, ◌++◌, Bool, true, false, ◌==◌, if◌then◌else◌, some, All, arith, ◌⊎◌,
  inl, inr,
}
use posixutils_rs.Text.Comm.{
  Line, no1, no2, nodup, tab, Calls, comm_calls, line_out, line_outs, comm_file, args_mask, lead_of,
  comm,
}
use posixutils_rs.Text.Comm.Merging.{IsLine, IsColumn, comm_columns}

abbrev indent : Bool → Line
indent left_out = if left_out then [] else tab ∷ []

-- A line of a column that is left out is not printed; another stands behind a tab for every printed column
-- before its own.
pub expected_line : Bool → Bool → Bool → ℕ → Line → Line
expected_line a b c column l =
    if column == no1
    then (if a then [] else l)
    else if column == no2
    then (if b then [] else indent a ++ l)
    else if c
    then []
    else (indent a ++ indent b) ++ l

pub expected_lines : Bool → Bool → Bool → Calls → Line
expected_lines a b c [] = []
expected_lines a b c ((t, l) ∷ cs) =
    let rest = expected_lines a b c cs in expected_line a b c t l ++ rest

abbrev AsExpected : Bool → Bool → Bool → Line → ℕ → Type 0
AsExpected a b c l t = line_out (lead_of a b) (args_mask a b c) t l ≡ some (expected_line a b c t l)

line_out-AsExpected :
    (a b c : Bool) (l : Line)
    → AsExpected a b c l no1 × AsExpected a b c l no2 × AsExpected a b c l nodup
unfolding line_out lead_of args_mask expected_line
line_out-AsExpected false false false l = (refl, refl, refl)
line_out-AsExpected false false true l = (refl, refl, refl)
line_out-AsExpected false true false l = (refl, refl, refl)
line_out-AsExpected false true true l = (refl, refl, refl)
line_out-AsExpected true false false l = (refl, refl, refl)
line_out-AsExpected true false true l = (refl, refl, refl)
line_out-AsExpected true true false l = (refl, refl, refl)
line_out-AsExpected true true true l = (refl, refl, refl)

column_cases : (t : ℕ) (l : Line) → IsColumn (t, l) → (t ≡ no1) ⊎ (t ≡ no2) ⊎ (t ≡ nodup)
column_cases t l h = ground arith

column-AsExpected : (a b c : Bool) (t : ℕ) (l : Line) → IsColumn (t, l) → AsExpected a b c l t
column-AsExpected a b c t l h =
    let (one, two, both) = line_out-AsExpected a b c l in
    elim (column_cases t l h) [
      | inl e ↦ rw e one
      | inr (inl e) ↦ rw e two
      | inr (inr e) ↦ rw e both
    ]

line_outs_expected :
    (a b c : Bool) (cs : Calls)
    → All IsColumn cs
    → line_outs (lead_of a b) (args_mask a b c) cs ≡ some (expected_lines a b c cs)
unfolding line_outs expected_lines
line_outs_expected a b c [] h = refl
line_outs_expected a b c ((t, l) ∷ cs) h =
    rw (column-AsExpected a b c t l h.0, line_outs_expected a b c cs h.1) refl

-- For every two files of lines that are not empty, and all flags, `comm` ends without a panic and prints
-- the lines of its columns as the flags ask for: those of a column that is left out not at all, and the
-- others behind a tab for every printed column before their own.
pub comm_printed :
    (a b c : Bool) (lines1 lines2 : List Line)
    → All IsLine lines1
    → All IsLine lines2
    → (cs : Calls) × (comm_calls lines1 lines2 ≡ some cs)
      × (comm a b c lines1 lines2 ≡ some (expected_lines a b c cs))
unfolding comm comm_file
comm_printed a b c lines1 lines2 l1 l2 =
    let (cs, e, p, q, v) = comm_columns lines1 lines2 l1 l2 in
    (cs, e, rw e (line_outs_expected a b c cs v))

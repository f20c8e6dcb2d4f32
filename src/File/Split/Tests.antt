-- ===== src/File/Split/Tests.antt =====
-- `split` and its theorems at concrete inputs.
use posixutils_rs.Prelude.{
  ℕ, ◌+◌, ◌^◌, ◌≡◌, refl, List, [], ◌∷◌, ltb, if◌then◌else◌, Option, none, some, length, map, arith,
}
use mathlib.Core.List.{flatten}
use posixutils_rs.Std.Strings.{Str, codes}
use posixutils_rs.File.Split.{
  OutFile, Outcome, new_suffix, new, step, next, open_output, close_output, incr_output, write,
  output_bytes, output_reads, output_lines,
}
use posixutils_rs.File.Split.Counting.{IsSuffix, value, next_lem}
use posixutils_rs.File.Split.Pieces.{Good, Wrote, output_reads-Wrote}

abbrev pieces : Option Outcome → List (Str × List ℕ)
pieces none = []
pieces (some (Outcome.done st)) = map (λ (f : OutFile). (f.name, f.content)) st.closed
pieces (some (Outcome.exhausted st)) = map (λ (f : OutFile). (f.name, f.content)) st.closed

abbrev reads : List (List ℕ)
reads = codes "abc" ∷ codes "de" ∷ []

split_test :
    pieces (output_reads (new (codes "x") 2 2) reads)
    ≡ (codes "xaa", codes "ab") ∷ (codes "xab", codes "cd") ∷ []
unfolding output_reads output_bytes open_output write incr_output close_output next step new_suffix
split_test = refl

lines_test :
    pieces (output_lines (new (codes "x") 1 1) (codes "a\n" ∷ codes "b\n" ∷ []))
    ≡ (codes "xa", codes "a\n") ∷ (codes "xb", codes "b\n") ∷ []
unfolding output_lines open_output write incr_output close_output next step new_suffix
lines_test = refl

-- With the boundary 0, empty files are written until the suffixes are exhausted.
abbrev empty_files : Option Outcome → ℕ
empty_files o = length (pieces o)

zero_test : empty_files (output_bytes 30 (new (codes "x") 0 1) (codes "a")) ≡ 25
unfolding output_bytes open_output write incr_output close_output next step new_suffix
zero_test = refl

start : Good (new (codes "x") 2 2)
start = (tt, refl, omega arith)

output_reads-Wrote_example :
    (o : Outcome) × ((output_reads (new (codes "x") 2 2) reads ≡ some o)
      × Wrote (new (codes "x") 2 2) (flatten reads) o)
output_reads-Wrote_example = output_reads-Wrote reads (new (codes "x") 2 2) start

next_lem_example :
    (s' : Str) × ((next (codes "az")
        ≡ (if ltb (value (codes "az") + 1) (26 ^ 2) then some (codes "az") else none, s'))
      × (length s' ≡ 2)
      × IsSuffix s'
      × (value s' ≡ (if ltb (value (codes "az") + 1) (26 ^ 2) then value (codes "az") + 1 else 0)))
next_lem_example =
    next_lem (codes "az") (omega arith)
      ((omega arith, omega arith), ((omega arith, omega arith), tt))

-- ===== src/Text/Comm/Tests.antt =====
-- `comm` and its theorems at concrete inputs.
use posixutils_rs.Std.Strings.{str_lt}
use posixutils_rs.Prelude.{◌≡◌, refl, List, [], ◌∷◌, true, false, some, All}
use posixutils_rs.Text.Comm.{
  Line, no1, no2, tab, Calls, comm, comm_calls, comm_file, comm_loop, on_buffers, fetch, line_out,
  line_outs, args_mask, lead_of,
}
use posixutils_rs.Text.Comm.Merging.{lines_of, IsColumn, comm_columns}
use posixutils_rs.Text.Comm.Printing.{expected_lines, comm_printed}

abbrev file1 : List Line
file1 = (b'a' ∷ 10 ∷ []) ∷ (b'b' ∷ 10 ∷ []) ∷ []

abbrev file2 : List Line
file2 = (b'b' ∷ 10 ∷ []) ∷ (b'c' ∷ 10 ∷ []) ∷ []

comm_test :
    comm false false false file1 file2
    ≡ some (b'a' ∷ 10 ∷ tab ∷ tab ∷ b'b' ∷ 10 ∷ tab ∷ b'c' ∷ 10 ∷ [])
unfolding comm comm_file comm_calls comm_loop on_buffers fetch str_lt line_out line_outs args_mask
    lead_of
comm_test = refl

comm_columns_example :
    (cs : Calls) × (comm_calls file1 file2 ≡ some cs)
    × (lines_of no1 cs ≡ file1)
    × (lines_of no2 cs ≡ file2)
    × All IsColumn cs
comm_columns_example = comm_columns file1 file2 (tt, (tt, tt)) (tt, (tt, tt))

comm_printed_example :
    (cs : Calls) × (comm_calls file1 file2 ≡ some cs)
    × (comm true false true file1 file2 ≡ some (expected_lines true false true cs))
comm_printed_example = comm_printed true false true file1 file2 (tt, (tt, tt)) (tt, (tt, tt))

-- ===== src/Misc/Test/Tests.antt =====
-- `test` and its theorems at concrete inputs.
use posixutils_rs.Prelude.{◌≡◌, ◌≢◌, ◌↔◌, refl, [], ◌∷◌, false, not, none, some, arith}
use posixutils_rs.Std.Strings.{codes, match_str, str_eq}
use posixutils_rs.Std.Integers.{pos, negsuc, eq_ℤ, lt_ℤ}
use posixutils_rs.Std.Numerals.{parse_i64, decimal, decimal_digits, show_i64}
use posixutils_rs.Misc.Test.{
  Metadata, System, pipe, quiet, panicked, unknown_operator, parse_unary_op, eval_binary_int,
}
use posixutils_rs.Misc.Test.Main.{
  eval_unary, eval_unary_path, eval_binary, parse_binary_op, dispatch, run, exit, panic,
}
use posixutils_rs.Misc.Test.Integers.{eval_binary-show_i64}
use posixutils_rs.Misc.Test.Panics.{test-panicked}

-- 420 is 0o644.
abbrev fifo_file : Metadata
fifo_file = record { file_type = pipe; mode = 420; len = 0; dev = 1; ino = 2; modified = 3 }

-- Every path is that of a FIFO, and nothing is a terminal.
abbrev fifos : System
fifos = record { metadata = λ _. some fifo_file; isatty = λ _. false }

fifo_test : run fifos (codes "test" ∷ codes "-p" ∷ codes "a" ∷ []) ≡ panic
unfolding run dispatch str_eq eval_unary parse_unary_op match_str eval_unary_path
fifo_test = refl

-- A file that its owner may write is no readable one.
readable_test : run fifos (codes "test" ∷ codes "-r" ∷ codes "a" ∷ []) ≡ exit none 1
unfolding run dispatch str_eq eval_unary parse_unary_op match_str eval_unary_path
readable_test = refl

not_numbers : run fifos (codes "test" ∷ codes "x" ∷ codes "-eq" ∷ codes "0" ∷ []) ≡ exit none 0
unfolding run dispatch str_eq eval_binary parse_binary_op match_str eval_binary_int parse_i64
    decimal decimal_digits eq_ℤ
not_numbers = refl

-- The second `!` is taken for an operator.
two_bangs :
    run fifos (codes "test" ∷ codes "!" ∷ codes "!" ∷ codes "a" ∷ [])
    ≡ exit (some (unknown_operator (codes "!"))) 0
unfolding run dispatch str_eq eval_unary parse_unary_op match_str
two_bangs = refl

eval_binary-show_i64_example :
    (eval_binary fifos (show_i64 (negsuc 1)) (codes "-eq") (show_i64 (pos 3))
      ≡ quiet (eq_ℤ (negsuc 1) (pos 3)))
    × (eval_binary fifos (show_i64 (negsuc 1)) (codes "-ne") (show_i64 (pos 3))
        ≡ quiet (not (eq_ℤ (negsuc 1) (pos 3))))
    × (eval_binary fifos (show_i64 (negsuc 1)) (codes "-lt") (show_i64 (pos 3))
        ≡ quiet (lt_ℤ (negsuc 1) (pos 3)))
    × (eval_binary fifos (show_i64 (negsuc 1)) (codes "-ge") (show_i64 (pos 3))
        ≡ quiet (not (lt_ℤ (negsuc 1) (pos 3))))
    × (eval_binary fifos (show_i64 (negsuc 1)) (codes "-gt") (show_i64 (pos 3))
        ≡ quiet (lt_ℤ (pos 3) (negsuc 1)))
    × (eval_binary fifos (show_i64 (negsuc 1)) (codes "-le") (show_i64 (pos 3))
        ≡ quiet (not (lt_ℤ (pos 3) (negsuc 1))))
eval_binary-show_i64_example =
    eval_binary-show_i64 (negsuc 1) (pos 3) (omega arith, omega arith) (omega arith, omega arith)
      fifos

test-panicked_example :
    ((eval_unary fifos (codes "-p") (codes "a") ≡ panicked)
      ↔ ((codes "-p" ≡ codes "-p") × ((md : Metadata) × (fifos.metadata (codes "a") ≡ some md))))
    × (eval_binary fifos (codes "b") (codes "-p") (codes "a") ≢ panicked)
test-panicked_example = test-panicked fifos (codes "b") (codes "-p") (codes "a")

-- ===== src/Misc/Test/Integers.antt =====
-- `test` on integers.
use posixutils_rs.Prelude.{◌≡◌, refl, not}
use posixutils_rs.Std.Strings.{codes, match_str, str_eq}
use posixutils_rs.Std.Integers.{ℤ, IsI64, lt_ℤ, eq_ℤ}
use posixutils_rs.Std.Numerals.{show_i64}
use posixutils_rs.Std.Numerals.RoundTrip.{parse_i64-show_i64}
use posixutils_rs.Misc.Test.{
  BinOp, System, quiet, compare_ints, eval_binary_int, int_eq, int_ne, int_lt, int_gt, int_ge,
  int_le,
}
use posixutils_rs.Misc.Test.Main.{eval_binary, parse_binary_op}

module _ (x y : ℤ) (hx : IsI64 x) (hy : IsI64 y) where
  eval_binary_int-show_i64 :
      (op : BinOp) → eval_binary_int op (show_i64 x) (show_i64 y) ≡ compare_ints op x y
  unfolding eval_binary_int
  eval_binary_int-show_i64 op = rw (parse_i64-show_i64 x hx) (rw (parse_i64-show_i64 y hy) refl)

  -- On two integers that an `i64` holds, in decimal notation, the six operators are the equality and the orders of the integers, and
  -- each is the negation of its opposite.
  pub eval_binary-show_i64 :
      (system : System)
      → (eval_binary system (show_i64 x) (codes "-eq") (show_i64 y) ≡ quiet (eq_ℤ x y))
        × (eval_binary system (show_i64 x) (codes "-ne") (show_i64 y) ≡ quiet (not (eq_ℤ x y)))
        × (eval_binary system (show_i64 x) (codes "-lt") (show_i64 y) ≡ quiet (lt_ℤ x y))
        × (eval_binary system (show_i64 x) (codes "-ge") (show_i64 y) ≡ quiet (not (lt_ℤ x y)))
        × (eval_binary system (show_i64 x) (codes "-gt") (show_i64 y) ≡ quiet (lt_ℤ y x))
        × (eval_binary system (show_i64 x) (codes "-le") (show_i64 y) ≡ quiet (not (lt_ℤ y x)))
  unfolding eval_binary parse_binary_op match_str str_eq
  eval_binary-show_i64 system = (
    eval_binary_int-show_i64 int_eq,
    eval_binary_int-show_i64 int_ne,
    eval_binary_int-show_i64 int_lt,
    eval_binary_int-show_i64 int_ge,
    eval_binary_int-show_i64 int_gt,
    eval_binary_int-show_i64 int_le,
  )

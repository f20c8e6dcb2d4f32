-- ===== src/Calc/Expr/Tests.antt =====
-- `expr` and its theorems at concrete inputs.
use posixutils_rs.Prelude.{
  ◌<◌, ◌≡◌, ◌≢◌, refl, List, [], ◌∷◌, true, false, none, arith, map, All, length,
}
use posixutils_rs.Std.Strings.{Str, codes, match_str, str_eq}
use posixutils_rs.Std.Integers.{pos, negsuc, ◌+ℤ◌, ◌*ℤ◌, quotient, eq_ℤ, fits_i64}
use posixutils_rs.Std.Numerals.{parse_i64, decimal, decimal_digits, show_i64, show_digits}
use posixutils_rs.Calc.Expr.Token.{
  ok, panic, out_of_fuel, integer, ◌>>?◌, parse_token, token_display, token_is_zero,
}
use posixutils_rs.Calc.Expr.Ops.{RegexCrate, int_add, int_mul, apply, intop, int_result, logop}
use posixutils_rs.Calc.Expr.Eval.{
  find_from, find_matching_paren, round, eval_fuel, eval_expression, run,
}
use posixutils_rs.Calc.Expr.Fuel.{Post}
use posixutils_rs.Calc.Expr.Range.{IsValue, InRange}
use posixutils_rs.Calc.Expr.Values.{eval_expression-IsValue, eval_expression-ends}
use posixutils_rs.Calc.Expr.Tree.{
  arithmetic, number, Expr, single, binary, leaf, group, print, denote,
}
use posixutils_rs.Calc.Expr.Tree.Evaluation.{eval_expression-print}
use posixutils_rs.Calc.Expr.Reparsed.{parse_token-token_display}

-- A crate that refuses every pattern.
abbrev no_regex : RegexCrate
no_regex _ = none

abbrev args : List Str
args = codes "1" ∷ codes "+" ∷ codes "2" ∷ codes "*" ∷ codes "3" ∷ []

-- `*` does not bind closer than `+`.
left_to_right : run no_regex true args ≡ ok (codes "9")
unfolding run eval_expression eval_fuel round parse_token match_str str_eq parse_i64 decimal
    decimal_digits apply intop int_result ◌+ℤ◌ ◌*ℤ◌ fits_i64 token_display show_i64 show_digits
left_to_right = refl

grouped :
    run no_regex true
      (codes "(" ∷ codes "7" ∷ codes "/" ∷ codes "2" ∷ codes ")" ∷ codes "+" ∷ codes "-4" ∷ [])
    ≡ ok (codes "-1")
unfolding run eval_expression eval_fuel round find_matching_paren find_from parse_token match_str
    str_eq parse_i64 decimal decimal_digits apply intop int_result quotient eq_ℤ ◌+ℤ◌ fits_i64
    token_display show_i64 show_digits
grouped = refl

division_by_zero : run no_regex false (codes "1" ∷ codes "/" ∷ codes "0" ∷ []) ≡ panic
unfolding run eval_expression eval_fuel round parse_token match_str str_eq parse_i64 decimal
    decimal_digits apply intop int_result eq_ℤ
division_by_zero = refl

-- The operands of `&` and `|` are not asked to be values.
operator_operand : run no_regex true (codes "5" ∷ codes "|" ∷ codes "*" ∷ []) ≡ ok (codes "5")
unfolding run eval_expression eval_fuel round parse_token match_str str_eq parse_i64 decimal
    decimal_digits apply logop token_is_zero eq_ℤ token_display show_i64 show_digits
operator_operand = refl

-- `1 + ( 2 * 3 )`
abbrev tree : Expr
tree =
    binary (single (leaf (number (pos 1)))) (arithmetic int_add)
      (group (binary (single (leaf (number (pos 2)))) (arithmetic int_mul) (leaf (number (pos 3)))))

eval_expression-print_example :
    eval_expression no_regex true (print tree) ≡ denote no_regex true tree
eval_expression-print_example = eval_expression-print no_regex true tree

tree_value : denote no_regex true tree ≡ ok (integer (pos 7))
unfolding denote intop int_result ◌+ℤ◌ ◌*ℤ◌ fits_i64
tree_value = refl

tree_tokens : All InRange (print tree) × (length (print tree) < 8)
unfolding print
tree_tokens = (
  (
    (omega arith, omega arith),
    (tt, (tt, ((omega arith, omega arith), (tt, ((omega arith, omega arith), (tt, tt)))))),
  ),
  omega arith,
)

eval_expression-ends_example :
    (eval_expression no_regex true (print tree) ≢ out_of_fuel)
    × (eval_fuel no_regex true 8 (print tree) ≡ eval_expression no_regex true (print tree))
    × (eval_expression no_regex true (print tree)
        ≡ round no_regex true (eval_expression no_regex true) (print tree))
eval_expression-ends_example =
    eval_expression-ends no_regex true (print tree) 8 tree_tokens.0 tree_tokens.1

eval_expression-IsValue_example :
    Post IsValue (eval_expression no_regex true (map parse_token args))
eval_expression-IsValue_example = eval_expression-IsValue no_regex true args

parse_token-token_display_example :
    (token_display (integer (negsuc 41)) >>? λ s. ok (parse_token s)) ≡ ok (integer (negsuc 41))
parse_token-token_display_example = parse_token-token_display (negsuc 41) (omega arith, omega arith)

-- ===== src/Calc/Expr/Ops.antt =====
-- calc/expr.rs: the operations on two tokens. The `regex` crate is a parameter.
use posixutils_rs.Prelude.{
  Bool, true, false, not, ◌&&◌, ◌||◌, Option, none, some, if◌then◌else◌, length, ◌^◌, ◌-◌,
}
use posixutils_rs.Std.Strings.{Str, str_eq, str_lt}
use posixutils_rs.Std.Integers.{
  ℤ, pos, negsuc, ◌+ℤ◌, ◌-ℤ◌, ◌*ℤ◌, quotient, remainder, lt_ℤ, eq_ℤ, fits_i64, wrap_i64,
}
use posixutils_rs.Std.Numerals.{show_i64}
use posixutils_rs.Calc.Expr.Token.{
  Token, op_mul, op_div, op_rem, op_add, op_sub, op_eq, op_gt, op_lt, op_ge, op_le, op_ne, op_and,
  op_or, op_match, integer, str, invalid_regex, wanted_operator, Result, ok, err, panic, ◌>>?◌,
  token_is_zero, token_to_string, token_to_int_req,
}

-- The first match of a regular expression in a string: the groups 0 and 1 of `captures`.
pub record Match : Type 0 where
  pub whole : Str
  pub group1 : Option Str

-- `Regex::new`, and `captures` of what it returns.
abbrev pub RegexCrate : Type 0
RegexCrate = Str → Option (Str → Option Match)

pub data CmpOp : Type 0 where
  cmp_eq cmp_ne cmp_gt cmp_lt cmp_ge cmp_le : CmpOp

pub data IntOp : Type 0 where
  int_add int_sub int_mul int_div int_rem : IntOp

abbrev pub of_bool : Bool → Token
of_bool b = integer (if b then pos 1 else pos 0)

abbrev pub compare_int : CmpOp → ℤ → ℤ → Bool
compare_int cmp_eq lhs rhs = eq_ℤ lhs rhs
compare_int cmp_ne lhs rhs = not (eq_ℤ lhs rhs)
compare_int cmp_gt lhs rhs = lt_ℤ rhs lhs
compare_int cmp_lt lhs rhs = lt_ℤ lhs rhs
compare_int cmp_ge lhs rhs = not (lt_ℤ lhs rhs)
compare_int cmp_le lhs rhs = not (lt_ℤ rhs lhs)

abbrev pub compare_str : CmpOp → Str → Str → Bool
compare_str cmp_eq lhs rhs = str_eq lhs rhs
compare_str cmp_ne lhs rhs = not (str_eq lhs rhs)
compare_str cmp_gt lhs rhs = str_lt rhs lhs
compare_str cmp_lt lhs rhs = str_lt lhs rhs
compare_str cmp_ge lhs rhs = not (str_lt lhs rhs)
compare_str cmp_le lhs rhs = not (str_lt rhs lhs)

unfoldable pub cmpint : ℤ → ℤ → CmpOp → Token
cmpint lhs rhs op = of_bool (compare_int op lhs rhs)

unfoldable pub cmpstr : Token → Token → CmpOp → Result Token
cmpstr lhs rhs op =
    token_to_string lhs >>? λ l. token_to_string rhs >>? λ r. ok (of_bool (compare_str op l r))

unfoldable pub cmpop : Token → Token → CmpOp → Result Token
cmpop (integer l) (integer r) op = ok (cmpint l r op)
cmpop (integer l) rhs op = cmpstr (str (show_i64 l)) rhs op
cmpop lhs (integer r) op = cmpstr lhs (str (show_i64 r)) op
cmpop lhs rhs op = cmpstr lhs rhs op

-- A result that does not fit an `i64` panics where overflow is checked and wraps elsewhere.
abbrev pub fit : Bool → ℤ → Result ℤ
fit checked z = if fits_i64 z then ok z else if checked then panic else ok (wrap_i64 z)

-- A division by 0 panics, and so does that of the least `i64` by -1.
abbrev pub division_panics : ℤ → ℤ → Bool
division_panics i1 i2 = eq_ℤ i2 (pos 0) || eq_ℤ i1 (negsuc (2 ^ 63 - 1)) && eq_ℤ i2 (negsuc 0)

unfoldable pub int_result : Bool → IntOp → ℤ → ℤ → Result ℤ
int_result checked int_add i1 i2 = fit checked (i1 +ℤ i2)
int_result checked int_sub i1 i2 = fit checked (i1 -ℤ i2)
int_result checked int_mul i1 i2 = fit checked (i1 *ℤ i2)
int_result checked int_div i1 i2 = if division_panics i1 i2 then panic else ok (quotient i1 i2)
int_result checked int_rem i1 i2 = if division_panics i1 i2 then panic else ok (remainder i1 i2)

unfoldable pub intop : Bool → Token → Token → IntOp → Result Token
intop checked lhs rhs op = token_to_int_req lhs >>? λ i1.
    token_to_int_req rhs >>? λ i2. int_result checked op i1 i2 >>? λ z. ok (integer z)

unfoldable pub logop : Token → Token → Bool → Token
logop lhs rhs is_and =
    let lhs_zero = token_is_zero lhs in
    let rhs_zero = token_is_zero rhs in
    if is_and
    then if not lhs_zero && not rhs_zero then lhs else integer (pos 0)
    else if not lhs_zero
    then lhs
    else if not rhs_zero
    then rhs
    else integer (pos 0)

-- The token for a match: group 1 where there is one, else the length.
abbrev pub match_token : Option Str → Str → Token
match_token (some s) whole = str s
match_token none whole = integer (wrap_i64 (pos (length whole)))

abbrev pub matched : Option Match → Token
matched none = integer (pos 0)
matched (some m) = match_token m.group1 m.whole

abbrev pub search_with : Option (Str → Option Match) → Str → Result Token
search_with none s = err invalid_regex
search_with (some captures) s = ok (matched (captures s))

unfoldable pub matchop : RegexCrate → Token → Token → Result Token
matchop regex lhs rhs =
    token_to_string lhs >>? λ l. token_to_string rhs >>? λ r. search_with (regex r) l

-- The dispatch of `eval_expression`.
unfoldable pub apply : RegexCrate → Bool → Token → Token → Token → Result Token
apply regex checked lhs op_add rhs = intop checked lhs rhs int_add
apply regex checked lhs op_sub rhs = intop checked lhs rhs int_sub
apply regex checked lhs op_mul rhs = intop checked lhs rhs int_mul
apply regex checked lhs op_div rhs = intop checked lhs rhs int_div
apply regex checked lhs op_rem rhs = intop checked lhs rhs int_rem
apply regex checked lhs op_eq rhs = cmpop lhs rhs cmp_eq
apply regex checked lhs op_ne rhs = cmpop lhs rhs cmp_ne
apply regex checked lhs op_gt rhs = cmpop lhs rhs cmp_gt
apply regex checked lhs op_lt rhs = cmpop lhs rhs cmp_lt
apply regex checked lhs op_ge rhs = cmpop lhs rhs cmp_ge
apply regex checked lhs op_le rhs = cmpop lhs rhs cmp_le
apply regex checked lhs op_and rhs = ok (logop lhs rhs true)
apply regex checked lhs op_or rhs = ok (logop lhs rhs false)
apply regex checked lhs op_match rhs = matchop regex lhs rhs
apply regex checked lhs _ rhs = err wanted_operator

-- ===== src/Calc/Expr/Tree.antt =====
-- A reference for `eval_expression`: expressions as trees, their tokens and their values.
pub mod Lval
pub mod Parens
pub mod Evaluation
use posixutils_rs.Prelude.{
  ℕ, zero, suc, ◌+◌, ◌-◌, ◌<◌, ◌≤◌, ◌≡◌, refl, sym, ap, ◌∙◌, subst, List, [], ◌∷◌, ◌++◌, append-nil,
  append_assoc, Option, none, some, arith, length, length-append, take, drop, Bool, true, false,
  inl, inr,
}
use posixutils_rs.Std.Strings.{Str}
use posixutils_rs.Std.Integers.{ℤ, pos}
use posixutils_rs.Calc.Expr.Token
use posixutils_rs.Calc.Expr.Token.{
  Token, integer, str, left_paren, right_paren, Result, ok, err, panic, out_of_fuel, ◌>>?◌,
  token_is_lval,
}
use posixutils_rs.Calc.Expr.Ops
use posixutils_rs.Calc.Expr.Ops.{
  RegexCrate, IntOp, CmpOp, apply, intop, cmpop, cmpstr, logop, matchop,
}
use posixutils_rs.Calc.Expr.Eval.{
  find_from, find_matching_paren, is_left_paren, open_left, open_right, round, eval_expression,
}
use posixutils_rs.Calc.Expr.Fuel.{bind-congr, eval_expression-round}

pub data Operator : Type 0 where
  arithmetic : IntOp → Operator
  comparison : CmpOp → Operator
  both either matches : Operator

pub data Value : Type 0 where
  number : ℤ → Value
  text : Str → Value

mutual
  -- A chain of operators takes its operands from left to right, without precedence.
  pub data Expr : Type 0 where
    single : Operand → Expr
    binary : Expr → Operator → Operand → Expr

  pub data Operand : Type 0 where
    leaf : Value → Operand
    group : Expr → Operand

abbrev pub operator_token : Operator → Token
operator_token (arithmetic Ops.int_add) = Token.op_add
operator_token (arithmetic Ops.int_sub) = Token.op_sub
operator_token (arithmetic Ops.int_mul) = Token.op_mul
operator_token (arithmetic Ops.int_div) = Token.op_div
operator_token (arithmetic Ops.int_rem) = Token.op_rem
operator_token (comparison Ops.cmp_eq) = Token.op_eq
operator_token (comparison Ops.cmp_ne) = Token.op_ne
operator_token (comparison Ops.cmp_gt) = Token.op_gt
operator_token (comparison Ops.cmp_lt) = Token.op_lt
operator_token (comparison Ops.cmp_ge) = Token.op_ge
operator_token (comparison Ops.cmp_le) = Token.op_le
operator_token both = Token.op_and
operator_token either = Token.op_or
operator_token matches = Token.op_match

abbrev pub value_token : Value → Token
value_token (number z) = integer z
value_token (text s) = str s

unfoldable mutual
  pub print : Expr → List Token
  print (single o) = print_operand o
  print (binary l op o) = print l ++ operator_token op ∷ print_operand o

  pub print_operand : Operand → List Token
  print_operand (leaf v) = value_token v ∷ []
  print_operand (group e) = left_paren ∷ print e ++ right_paren ∷ []

module _ (regex : RegexCrate) (checked : Bool) where
  abbrev pub operate : Operator → Token → Token → Result Token
  operate (arithmetic op) a b = intop checked a b op
  operate (comparison op) a b = cmpop a b op
  operate both a b = ok (logop a b true)
  operate either a b = ok (logop a b false)
  operate matches a b = matchop regex a b

  unfoldable mutual
    pub denote : Expr → Result Token
    denote (single o) = denote_operand o
    denote (binary l op o) = denote l >>? λ a. denote_operand o >>? λ b. operate op a b

    pub denote_operand : Operand → Result Token
    denote_operand (leaf v) = ok (value_token v)
    denote_operand (group e) = denote e

  pub apply-operate :
      (op : Operator) (a b : Token) → apply regex checked a (operator_token op) b ≡ operate op a b
  unfolding apply
  apply-operate (arithmetic Ops.int_add) a b = refl
  apply-operate (arithmetic Ops.int_sub) a b = refl
  apply-operate (arithmetic Ops.int_mul) a b = refl
  apply-operate (arithmetic Ops.int_div) a b = refl
  apply-operate (arithmetic Ops.int_rem) a b = refl
  apply-operate (comparison Ops.cmp_eq) a b = refl
  apply-operate (comparison Ops.cmp_ne) a b = refl
  apply-operate (comparison Ops.cmp_gt) a b = refl
  apply-operate (comparison Ops.cmp_lt) a b = refl
  apply-operate (comparison Ops.cmp_ge) a b = refl
  apply-operate (comparison Ops.cmp_le) a b = refl
  apply-operate both a b = refl
  apply-operate either a b = refl
  apply-operate matches a b = refl

-- ===== src/Calc/Expr/Eval.antt =====
-- calc/expr.rs: `find_matching_paren`, `eval_expression` and what `main` prints.
use posixutils_rs.Prelude.{
  ℕ, zero, suc, ◌+◌, ◌-◌, List, [], ◌∷◌, Bool, true, false, Option, none, some, if◌then◌else◌, ◌==◌,
  length, take, drop, map,
}
use posixutils_rs.Std.Strings.{Str}
use posixutils_rs.Calc.Expr.Token.{
  Token, left_paren, right_paren, Result, ok, err, out_of_fuel, ◌>>?◌, unmatched_left,
  unmatched_right, not_an_lval, not_one_token, token_is_lval, token_display, parse_token,
}
use posixutils_rs.Calc.Expr.Ops.{RegexCrate, apply}

-- What the loop looks at in a token.
pub data Shape : Type 0 where
  opening closing other : Shape

abbrev pub shape : Token → Shape
shape left_paren = opening
shape right_paren = closing
shape _ = other

-- The loop, at the index `i` with `depth` parentheses open.
unfoldable pub find_from : ℕ → ℕ → List Token → Option ℕ
find_from i depth [] = none
find_from i depth (token ∷ tokens) = elim (shape token) [
  | opening ↦ find_from (suc i) (suc depth) tokens
  | closing ↦
      let rest = find_from (suc i) (depth - 1) tokens in
      if depth == 0 then none else if depth - 1 == 0 then some i else rest
  | other ↦ find_from (suc i) depth tokens
]

unfoldable pub find_matching_paren : List Token → Option ℕ
find_matching_paren tokens = find_from 0 0 tokens

abbrev pub is_left_paren : Token → Bool
is_left_paren token = elim (shape token) [ opening ↦ true | _ ↦ false ]

-- Behind the loop.
abbrev pub final_result : List Token → Result Token
final_result (t ∷ []) = if token_is_lval t then ok t else err not_an_lval
final_result _ = err not_one_token

module _ (regex : RegexCrate) (checked : Bool) where
  -- One round of the loop; `eval` is called for the tokens within parentheses and for the tokens of the next
  -- round. `open_left` and `open_right` are the rounds where an operand is in parentheses that close at `i`.
  module _ (eval : List Token → Result Token) where
    abbrev pub open_left : List Token → Option ℕ → Result Token
    open_left tokens none = err unmatched_left
    open_left tokens (some i) =
        eval (take (i - 1) (drop 1 tokens)) >>? λ result. eval (result ∷ drop (i + 1) tokens)

    abbrev pub open_right : Token → Token → List Token → Option ℕ → Result Token
    open_right lhs op tokens none = err unmatched_right
    open_right lhs op tokens (some i) = eval (take (i - 1) (drop 1 tokens)) >>? λ result.
        eval (lhs ∷ op ∷ result ∷ drop (i + 1) tokens)

    unfoldable pub round : List Token → Result Token
    round (lhs ∷ op ∷ rhs ∷ rest) =
        if is_left_paren lhs
        then open_left (lhs ∷ op ∷ rhs ∷ rest) (find_matching_paren (lhs ∷ op ∷ rhs ∷ rest))
        else if is_left_paren rhs
        then open_right lhs op (rhs ∷ rest) (find_matching_paren (rhs ∷ rest))
        else apply regex checked lhs op rhs >>? λ result. eval (result ∷ rest)
    round tokens = final_result tokens

  unfoldable pub eval_fuel : ℕ → List Token → Result Token
  eval_fuel zero tokens = out_of_fuel
  eval_fuel (suc fuel) tokens = round (eval_fuel fuel) tokens

  unfoldable pub eval_expression : List Token → Result Token
  eval_expression tokens = eval_fuel (suc (length tokens)) tokens

  -- `tokenize`, on the arguments behind the name of the program, and what `main` prints.
  unfoldable pub run : List Str → Result Str
  run args = eval_expression (map parse_token args) >>? token_display

-- ===== src/Calc/Expr/Tree/Evaluation.antt =====
-- The tokens of a tree are evaluated to its value.
use posixutils_rs.Prelude.{
  ◌≤◌, ◌≡◌, refl, sym, ap, ◌∙◌, List, [], ◌∷◌, ◌++◌, append-nil, append_assoc, arith, length,
  length-append, Bool,
}
use posixutils_rs.Calc.Expr.Token.{
  Token, left_paren, right_paren, Result, ok, err, panic, out_of_fuel, ◌>>?◌,
}
use posixutils_rs.Calc.Expr.Ops.{RegexCrate, apply}
use posixutils_rs.Calc.Expr.Eval.{
  find_matching_paren, open_left, open_right, round, eval_expression,
}
use posixutils_rs.Calc.Expr.Fuel.{bind-congr, eval_expression-round}
use posixutils_rs.Calc.Expr.Tree.{
  Operator, Value, number, text, Expr, single, binary, Operand, leaf, group, operator_token,
  value_token, print, print_operand, operate, denote, denote_operand, apply-operate,
}
use posixutils_rs.Calc.Expr.Tree.Lval.{IsLval, Returns, ok-Returns, denote-Returns}
use posixutils_rs.Calc.Expr.Tree.Parens.{
  bind_assoc, lval-other, find_matching_paren-print, inner-parens, outer-parens, print-nonempty,
}

module _ (regex : RegexCrate) (checked : Bool) where
  eval : List Token → Result Token
  eval = eval_expression regex checked

  eval-value : (t : Token) → IsLval t → eval (t ∷ []) ≡ ok t
  unfolding eval round
  eval-value t h = eval_expression-round regex checked (t ∷ []) ∙ rw h refl

  eval-apply :
      (a op b : Token) (rest : List Token)
      → IsLval a
      → IsLval b
      → eval (a ∷ op ∷ b ∷ rest) ≡ apply regex checked a op b >>? λ r. eval (r ∷ rest)
  unfolding eval round
  eval-apply a op b rest h k =
      eval_expression-round regex checked (a ∷ op ∷ b ∷ rest)
      ∙ rw (lval-other a h) (rw (lval-other b k) refl)

  eval-open_left :
      (ts : List Token)
      → 2 ≤ length ts
      → eval (left_paren ∷ ts)
        ≡ open_left regex checked eval (left_paren ∷ ts) (find_matching_paren (left_paren ∷ ts))
  unfolding eval round
  eval-open_left [] h = absurd (omega arith)
  eval-open_left (t ∷ []) h = absurd (omega arith)
  eval-open_left (t ∷ t' ∷ ts) h = eval_expression-round regex checked (left_paren ∷ t ∷ t' ∷ ts)

  eval-open_right :
      (a op : Token) (ts : List Token)
      → IsLval a
      → eval (a ∷ op ∷ left_paren ∷ ts)
        ≡ open_right regex checked eval a op
            (left_paren ∷ ts)
            (find_matching_paren (left_paren ∷ ts))
  unfolding eval round
  eval-open_right a op ts h =
      eval_expression-round regex checked (a ∷ op ∷ left_paren ∷ ts) ∙ rw (lval-other a h) refl

  -- Where a sequence within parentheses has the value that it should have.
  HasValue : Expr → Type 0
  HasValue e = eval (print e) ≡ denote regex checked e

  eval-group_left :
      (e : Expr) (rest : List Token)
      → HasValue e
      → eval (left_paren ∷ print e ++ right_paren ∷ rest)
        ≡ denote regex checked e >>? λ r. eval (r ∷ rest)
  unfolding HasValue
  eval-group_left e rest h =
      eval-open_left (print e ++ right_paren ∷ rest)
        (omega (arith, length-append (print e) (right_paren ∷ rest), print-nonempty e))
      ∙ rw (find_matching_paren-print e rest) (
          rw (inner-parens left_paren right_paren (print e) rest)
            (rw (outer-parens left_paren right_paren (print e) rest) (rw h refl)))

  eval-group_right :
      (a op : Token) (e : Expr) (rest : List Token)
      → IsLval a
      → HasValue e
      → eval (a ∷ op ∷ left_paren ∷ print e ++ right_paren ∷ rest)
        ≡ denote regex checked e >>? λ r. eval (a ∷ op ∷ r ∷ rest)
  unfolding HasValue
  eval-group_right a op e rest l h =
      eval-open_right a op (print e ++ right_paren ∷ rest) l
      ∙ rw (find_matching_paren-print e rest) (
          rw (inner-parens left_paren right_paren (print e) rest)
            (rw (outer-parens left_paren right_paren (print e) rest) (rw h refl)))

  -- The tokens of a tree before `rest`.
  Reduces : Expr → Type 0
  Reduces e =
      (rest : List Token) → eval (print e ++ rest) ≡ denote regex checked e >>? λ v. eval (v ∷ rest)

  Reduces-HasValue : (e : Expr) → Reduces e → HasValue e
  unfolding Reduces HasValue
  Reduces-HasValue e h =
      ap eval (sym (append-nil (print e)))
      ∙ h []
      ∙ returned (denote regex checked e) (denote-Returns regex checked e)
    where
      returned : (r : Result Token) → Returns r → (r >>? λ v. eval (v ∷ [])) ≡ r
      returned (ok v) p = eval-value v p
      returned (err e) p = refl
      returned panic p = refl
      returned out_of_fuel p = refl

  value-IsLval : (v : Value) → IsLval (value_token v)
  value-IsLval (number z) = refl
  value-IsLval (text s) = refl

  abbrev GroupHasValue : Operand → Type 0
  GroupHasValue (leaf v) = Unit
  GroupHasValue (group e) = HasValue e

  -- An operand behind an operator.
  eval-operand :
      (a : Token) (op : Operator) (o : Operand) (rest : List Token)
      → IsLval a
      → GroupHasValue o
      → eval (a ∷ operator_token op ∷ print_operand o ++ rest)
        ≡ denote_operand regex checked o >>? λ b.
            operate regex checked op a b >>? λ v. eval (v ∷ rest)
  unfolding print denote
  eval-operand a op (leaf v) rest h k =
      eval-apply a (operator_token op) (value_token v) rest h (value-IsLval v)
      ∙ rw (apply-operate regex checked op a (value_token v)) refl
  eval-operand a op (group e) rest h k =
      ap (λ ts. eval (a ∷ operator_token op ∷ left_paren ∷ ts))
        (append_assoc (print e) (right_paren ∷ []) rest)
      ∙ eval-group_right a (operator_token op) e rest h k
      ∙ bind-congr (denote regex checked e) _ _ λ b e'.
        eval-apply a (operator_token op) b rest h
          (ok-Returns _ b (denote-Returns regex checked e) e')
        ∙ rw (apply-operate regex checked op a b) refl

  mutual
    unfolding print denote Reduces

    eval-print_append : (e : Expr) → Reduces e
    eval-print_append (single (leaf v)) = λ rest. refl
    eval-print_append (single (group e)) = λ rest.
        ap (λ ts. eval (left_paren ∷ ts)) (append_assoc (print e) (right_paren ∷ []) rest)
        ∙ eval-group_left e rest (group-HasValue (group e))
    eval-print_append (binary l op o) = λ rest.
        ap eval (append_assoc (print l) (operator_token op ∷ print_operand o) rest)
        ∙ eval-print_append l (operator_token op ∷ print_operand o ++ rest)
        ∙ bind-congr (denote regex checked l) _ _ (λ a e.
          eval-operand a op o rest (ok-Returns _ a (denote-Returns regex checked l) e)
            (group-HasValue o))
        ∙ bind-congr (denote regex checked l) _ _ (λ a _.
          bind_assoc (denote_operand regex checked o) (operate regex checked op a)
            (λ v. eval (v ∷ rest)))
        ∙ bind_assoc (denote regex checked l)
            (λ a. denote_operand regex checked o >>? operate regex checked op a)
            (λ v. eval (v ∷ rest))

    group-HasValue : (o : Operand) → GroupHasValue o
    group-HasValue (leaf v) = tt
    group-HasValue (group e) = Reduces-HasValue e (eval-print_append e)

  -- The tokens of an expression are evaluated to its value: parentheses group, and a chain of operators takes its
  -- operands from left to right, whatever the operators are. Errors and panics are those of the first operation,
  -- in this order, that has one.
  pub eval_expression-print :
      (e : Expr) → eval_expression regex checked (print e) ≡ denote regex checked e
  unfolding eval HasValue
  eval_expression-print e = Reduces-HasValue e (eval-print_append e)

-- ===== src/Calc/Expr/Tree/Parens.antt =====
-- The tokens of a tree within parentheses, and where they close.
use posixutils_rs.Prelude.{
  ℕ, suc, ◌+◌, ◌-◌, ◌≤◌, ◌≡◌, refl, ap, ◌∙◌, List, [], ◌∷◌, ◌++◌, append_assoc, some, arith, length,
  length-append, take, drop, false,
}
use posixutils_rs.Calc.Expr.Token.{
  Token, integer, str, left_paren, right_paren, Result, ok, err, panic, out_of_fuel, ◌>>?◌,
}
use posixutils_rs.Calc.Expr.Ops
use posixutils_rs.Calc.Expr.Ops.{RegexCrate, apply}
use posixutils_rs.Calc.Expr.Eval.{other, shape, find_from, find_matching_paren, is_left_paren}
use posixutils_rs.Calc.Expr.Tree.{
  Operator, arithmetic, comparison, both, either, matches, Value, number, text, Expr, single,
  binary, Operand, leaf, group, operator_token, value_token, print, print_operand,
}
use posixutils_rs.Calc.Expr.Tree.Lval.{IsLval}

pub bind_assoc {ℓ κ ι} :
    {A : Type ℓ} {B : Type κ} {C : Type ι} (r : Result A) (f : A → Result B) (g : B → Result C)
    → (r >>? λ a. f a >>? g) ≡ (r >>? f >>? g)
bind_assoc (ok a) f g = refl
bind_assoc (err e) f g = refl
bind_assoc panic f g = refl
bind_assoc out_of_fuel f g = refl

-- The search for the parenthesis that closes passes over the tokens of a tree.
find_from-other :
    (i depth : ℕ) (t : Token) (ts : List Token)
    → shape t ≡ other
    → find_from i depth (t ∷ ts) ≡ find_from (suc i) depth ts
unfolding find_from
find_from-other i depth t ts e = ground arith

value-other : (v : Value) → shape (value_token v) ≡ other
value-other (number z) = refl
value-other (text s) = refl

operator-other : (op : Operator) → shape (operator_token op) ≡ other
operator-other (arithmetic Ops.int_add) = refl
operator-other (arithmetic Ops.int_sub) = refl
operator-other (arithmetic Ops.int_mul) = refl
operator-other (arithmetic Ops.int_div) = refl
operator-other (arithmetic Ops.int_rem) = refl
operator-other (comparison Ops.cmp_eq) = refl
operator-other (comparison Ops.cmp_ne) = refl
operator-other (comparison Ops.cmp_gt) = refl
operator-other (comparison Ops.cmp_lt) = refl
operator-other (comparison Ops.cmp_ge) = refl
operator-other (comparison Ops.cmp_le) = refl
operator-other both = refl
operator-other either = refl
operator-other matches = refl

pub lval-other : (t : Token) → IsLval t → is_left_paren t ≡ false
lval-other (integer z) h = refl
lval-other (str s) h = refl
lval-other _ h = cc

opens :
    (i d : ℕ) (ts : List Token)
    → find_from i (suc d) (left_paren ∷ ts) ≡ find_from (suc i) (suc (suc d)) ts
unfolding find_from
opens i d ts = refl

closes :
    (i d : ℕ) (ts : List Token)
    → find_from i (suc (suc d)) (right_paren ∷ ts) ≡ find_from (suc i) (suc d) ts
unfolding find_from
closes i d ts = ground arith

Passes : List Token → Type 0
Passes ts =
    (i d : ℕ) (rest : List Token)
    → find_from i (suc d) (ts ++ rest) ≡ find_from (i + length ts) (suc d) rest

mutual
  unfolding Passes print

  find_from-print : (e : Expr) → Passes (print e)
  find_from-print (single o) = find_from-print_operand o
  find_from-print (binary l op o) = λ i d rest.
      rw (append_assoc (print l) (operator_token op ∷ print_operand o) rest) (
        find_from-print l i d (operator_token op ∷ print_operand o ++ rest)
        ∙ find_from-other (i + length (print l)) (suc d) (operator_token op)
            (print_operand o ++ rest) (operator-other op)
        ∙ find_from-print_operand o (suc (i + length (print l))) d rest
        ∙ ap (λ k. find_from k (suc d) rest)
            (omega (arith, length-append (print l) (operator_token op ∷ print_operand o))))

  find_from-print_operand : (o : Operand) → Passes (print_operand o)
  find_from-print_operand (leaf v) = λ i d rest.
      find_from-other i (suc d) (value_token v) rest (value-other v)
      ∙ ap (λ k. find_from k (suc d) rest) (omega arith)
  find_from-print_operand (group e) = λ i d rest.
      opens i d ((print e ++ right_paren ∷ []) ++ rest)
      ∙ rw (append_assoc (print e) (right_paren ∷ []) rest) (
          find_from-print e (suc i) (suc d) (right_paren ∷ rest)
          ∙ closes (suc i + length (print e)) d rest
          ∙ ap (λ k. find_from k (suc d) rest)
              (omega (arith, length-append (print e) (right_paren ∷ []))))

pub find_matching_paren-print :
    (e : Expr) (rest : List Token)
    → find_matching_paren (left_paren ∷ print e ++ right_paren ∷ rest) ≡ some (1 + length (print e))
unfolding find_matching_paren find_from Passes
find_matching_paren-print e rest = find_from-print e 1 0 (right_paren ∷ rest) ∙ refl

take-length : {A : Type 0} (xs ys : List A) → take (length xs) (xs ++ ys) ≡ xs
take-length [] ys = refl
take-length (x ∷ xs) ys = ap (λ zs. x ∷ zs) (take-length xs ys)

drop-length :
    {A : Type 0} (xs : List A) (y : A) (ys : List A) → drop (suc (length xs)) (xs ++ y ∷ ys) ≡ ys
drop-length [] y ys = refl
drop-length (x ∷ xs) y ys = drop-length xs y ys

pub inner-parens :
    {A : Type 0} (t y : A) (xs ys : List A)
    → take (1 + length xs - 1) (drop 1 (t ∷ xs ++ y ∷ ys)) ≡ xs
inner-parens t y xs ys =
    let e : 1 + length xs - 1 ≡ length xs = omega arith in rw e (take-length xs (y ∷ ys))

pub outer-parens :
    {A : Type 0} (t y : A) (xs ys : List A) → drop (1 + length xs + 1) (t ∷ xs ++ y ∷ ys) ≡ ys
outer-parens t y xs ys =
    let e : 1 + length xs + 1 ≡ suc (suc (length xs)) = omega arith in rw e (drop-length xs y ys)

mutual
  unfolding print

  pub print-nonempty : (e : Expr) → 1 ≤ length (print e)
  print-nonempty (single o) = print_operand-nonempty o
  print-nonempty (binary l op o) =
      omega (arith, length-append (print l) (operator_token op ∷ print_operand o))

  print_operand-nonempty : (o : Operand) → 1 ≤ length (print_operand o)
  print_operand-nonempty (leaf v) = omega arith
  print_operand-nonempty (group e) = omega arith

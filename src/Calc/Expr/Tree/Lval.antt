-- ===== src/Calc/Expr/Tree/Lval.antt =====
-- The value of a tree is a value: an operator or a parenthesis is none.
use posixutils_rs.Prelude.{◌≡◌, refl, subst, sym, Option, none, some, Bool, true, false, inl, inr}
use posixutils_rs.Std.Strings.{Str}
use posixutils_rs.Calc.Expr.Token.{
  Token, integer, Result, ok, err, panic, out_of_fuel, ◌>>?◌, token_is_lval, token_to_string,
  token_to_int_req,
}
use posixutils_rs.Calc.Expr.Ops
use posixutils_rs.Calc.Expr.Ops.{
  RegexCrate, IntOp, CmpOp, int_result, intop, cmpop, cmpstr, logop, matchop,
}
use posixutils_rs.Calc.Expr.Range.{logop-cases}
use posixutils_rs.Calc.Expr.Tree.{
  Operator, arithmetic, comparison, both, either, matches, number, text, Expr, single, binary,
  Operand, leaf, group, operate, denote, denote_operand,
}

abbrev pub IsLval : Token → Type 0
IsLval t = token_is_lval t ≡ true

-- What `r` returns, if anything.
abbrev pub Returns : Result Token → Type 0
Returns (ok t) = IsLval t
Returns _ = Unit

bind-Returns :
    {A : Type 0} (r : Result A) (next : A → Result Token)
    → ((a : A) → Returns (next a))
    → Returns (r >>? next)
bind-Returns (ok a) next h = h a
bind-Returns (err e) next h = tt
bind-Returns panic next h = tt
bind-Returns out_of_fuel next h = tt

pub ok-Returns : (r : Result Token) (t : Token) → Returns r → r ≡ ok t → IsLval t
ok-Returns r t h e = subst Returns e h

cmpstr-Returns : (lhs rhs : Token) (op : CmpOp) → Returns (cmpstr lhs rhs op)
unfolding cmpstr
cmpstr-Returns lhs rhs op =
    bind-Returns (token_to_string lhs) _ λ l. bind-Returns (token_to_string rhs) _ λ r. refl

cmpop-Returns : (lhs rhs : Token) (op : CmpOp) → Returns (cmpop lhs rhs op)
unfolding cmpop Ops.cmpint
cmpop-Returns (integer l) (integer r) op = refl
cmpop-Returns (integer l) rhs op = cmpstr-Returns _ rhs op
cmpop-Returns lhs (integer r) op = cmpstr-Returns lhs _ op
cmpop-Returns lhs rhs op = cmpstr-Returns lhs rhs op

logop-IsLval : (lhs rhs : Token) (b : Bool) → IsLval lhs → IsLval rhs → IsLval (logop lhs rhs b)
logop-IsLval lhs rhs b h k = elim (logop-cases lhs rhs b) [
  | inl e ↦ subst IsLval (sym e) h
  | inr (inl e) ↦ subst IsLval (sym e) k
  | inr (inr e) ↦ subst IsLval (sym e) refl
]

match_token-IsLval : (g : Option Str) (w : Str) → IsLval (Ops.match_token g w)
match_token-IsLval (some s) w = refl
match_token-IsLval none w = refl

matched-IsLval : (o : Option Ops.Match) → IsLval (Ops.matched o)
matched-IsLval none = refl
matched-IsLval (some m) = match_token-IsLval m.group1 m.whole

search_with-Returns :
    (c : Option (Str → Option Ops.Match)) (s : Str) → Returns (Ops.search_with c s)
search_with-Returns none s = tt
search_with-Returns (some captures) s = (matched-IsLval (captures s))

module _ (regex : RegexCrate) (checked : Bool) where
  operate-Returns :
      (op : Operator) (a b : Token) → IsLval a → IsLval b → Returns (operate regex checked op a b)
  unfolding intop matchop
  operate-Returns (arithmetic op) a b h k = bind-Returns (token_to_int_req a) _ λ i1.
      bind-Returns (token_to_int_req b) _
        λ i2. bind-Returns (int_result checked op i1 i2) _ λ z. refl
  operate-Returns (comparison op) a b h k = cmpop-Returns a b op
  operate-Returns both a b h k = (logop-IsLval a b true h k)
  operate-Returns either a b h k = (logop-IsLval a b false h k)
  operate-Returns matches a b h k =
      bind-Returns (token_to_string a) _
        λ l. bind-Returns (token_to_string b) _ λ r. search_with-Returns (regex r) l

  bind-lvals :
      (r : Result Token) (next : Token → Result Token)
      → Returns r
      → ((t : Token) → IsLval t → Returns (next t))
      → Returns (r >>? next)
  bind-lvals (ok a) next p h = h a p
  bind-lvals (err e) next p h = tt
  bind-lvals panic next p h = tt
  bind-lvals out_of_fuel next p h = tt

  mutual
    unfolding denote

    pub denote-Returns : (e : Expr) → Returns (denote regex checked e)
    denote-Returns (single o) = denote_operand-Returns o
    denote-Returns (binary l op o) =
        bind-lvals _ _ (denote-Returns l)
          λ a h. bind-lvals _ _ (denote_operand-Returns o) λ b k. operate-Returns op a b h k

    pub denote_operand-Returns : (o : Operand) → Returns (denote_operand regex checked o)
    denote_operand-Returns (leaf (number z)) = refl
    denote_operand-Returns (leaf (text s)) = refl
    denote_operand-Returns (group e) = denote-Returns e

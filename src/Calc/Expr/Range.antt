-- ===== src/Calc/Expr/Range.antt =====
-- The operations on tokens whose integers fit an `i64`.
use posixutils_rs.Prelude.{
  ℕ, zero, suc, ◌*◌, ◌/◌, ◌%◌, ◌≤◌, ◌≡◌, Option, none, some, arith, length, Bool, true, false,
  Bool-cases, inl, inr, ◌⊎◌, if◌then◌else◌, subst, sym,
}
use posixutils_rs.Std.Strings.{Str}
use posixutils_rs.Std.Integers
use posixutils_rs.Std.Integers.{
  ℤ, pos, negsuc, IsI64, fits_i64, fits_i64-IsI64, wrap_i64, wrap_i64-IsI64, quotient, remainder,
  eq_ℤ,
}
use posixutils_rs.Std.Numerals.{show_i64}
use posixutils_rs.Calc.Expr.Token
use posixutils_rs.Calc.Expr.Token.{
  Token, integer, str, Result, ok, err, panic, out_of_fuel, ◌>>?◌, parse_token,
}
use posixutils_rs.Calc.Expr.Ops
use posixutils_rs.Calc.Expr.Ops.{
  RegexCrate, IntOp, CmpOp, apply, fit, int_result, intop, cmpop, cmpstr, logop, matchop,
}
use posixutils_rs.Calc.Expr.Fuel.{Post, bind-Post}

-- Operators and parentheses are in range too.
abbrev pub InRange : Token → Type 0
InRange (integer z) = IsI64 z
InRange _ = Unit

abbrev pub IsValue : Token → Type 0
IsValue (integer z) = IsI64 z
IsValue (str _) = Unit
IsValue _ = ⊥

magnitude : (m n : ℕ) → m / suc (suc n) * 2 ≤ m
magnitude m n = grind arith

at_most : (m n : ℕ) → m / n ≤ m
at_most m n = grind arith

quotient-IsI64 :
    (i1 i2 : ℤ) → IsI64 i1 → IsI64 i2 → Ops.division_panics i1 i2 ≡ false → IsI64 (quotient i1 i2)
unfolding quotient eq_ℤ
quotient-IsI64 (pos m) (pos n) h k e = let l = at_most m n in omega (arith, l)
quotient-IsI64 (pos m) (negsuc n) h k e = let l = at_most m (suc n) in ground (arith, l)
quotient-IsI64 (negsuc m) (pos n) h k e = let l = at_most (suc m) n in ground (arith, l)
quotient-IsI64 (negsuc m) (negsuc zero) h k e = ground arith
quotient-IsI64 (negsuc m) (negsuc (suc n)) h k e = let l = magnitude (suc m) n in omega (arith, l)

fit-IsI64 : (checked : Bool) (z : ℤ) → Post IsI64 (fit checked z)
fit-IsI64 checked z = elim (Bool-cases (fits_i64 z)) [
  | inl e ↦ rw e (fits_i64-IsI64 z e)
  | inr e ↦ rw e (unchecked checked)
]
  where
    unchecked : (c : Bool) → Post IsI64 (if c then panic else ok (wrap_i64 z))
    unchecked true = tt
    unchecked false = wrap_i64-IsI64 z

token_to_int_req-IsI64 : (t : Token) → InRange t → Post IsI64 (Token.token_to_int_req t)
token_to_int_req-IsI64 (integer z) h = h
token_to_int_req-IsI64 _ h = tt

mod_at_most : (m n : ℕ) → m % n ≤ m
mod_at_most m n = grind arith

rem-IsI64 : (i1 i2 : ℤ) → IsI64 i1 → IsI64 (remainder i1 i2)
unfolding remainder
rem-IsI64 (pos m) i2 h = let l = mod_at_most m (Integers.abs i2) in omega (arith, l)
rem-IsI64 (negsuc m) i2 h = let l = mod_at_most (suc m) (Integers.abs i2) in ground (arith, l)

int_result-IsI64 :
    (checked : Bool) (op : IntOp) (i1 i2 : ℤ)
    → IsI64 i1
    → IsI64 i2
    → Post IsI64 (int_result checked op i1 i2)
unfolding int_result
int_result-IsI64 checked Ops.int_add i1 i2 h k = fit-IsI64 checked _
int_result-IsI64 checked Ops.int_sub i1 i2 h k = fit-IsI64 checked _
int_result-IsI64 checked Ops.int_mul i1 i2 h k = fit-IsI64 checked _
int_result-IsI64 checked Ops.int_div i1 i2 h k = elim (Bool-cases (Ops.division_panics i1 i2)) [
  | inl e ↦ rw e tt
  | inr e ↦ rw e (quotient-IsI64 i1 i2 h k e)
]
int_result-IsI64 checked Ops.int_rem i1 i2 h k = elim (Bool-cases (Ops.division_panics i1 i2)) [
  | inl e ↦ rw e tt
  | inr e ↦ rw e (rem-IsI64 i1 i2 h)
]

intop-InRange :
    (checked : Bool) (lhs rhs : Token) (op : IntOp)
    → InRange lhs
    → InRange rhs
    → Post InRange (intop checked lhs rhs op)
unfolding intop
intop-InRange checked lhs rhs op h k =
    bind-Post IsI64 InRange _ _ (token_to_int_req-IsI64 lhs h) λ i1 h1.
      bind-Post IsI64 InRange _ _ (token_to_int_req-IsI64 rhs k)
        λ i2 h2. bind-Post IsI64 InRange _ _ (int_result-IsI64 checked op i1 i2 h1 h2) λ z hz. hz

Anything : Str → Type 0
Anything s = Unit

token_to_string-ends : (t : Token) → Post Anything (Token.token_to_string t)
unfolding Token.token_to_string Anything
token_to_string-ends (integer z) = tt
token_to_string-ends (str s) = tt
token_to_string-ends _ = tt

of_bool-InRange : (b : Bool) → InRange (Ops.of_bool b)
of_bool-InRange true = omega arith
of_bool-InRange false = omega arith

cmpstr-InRange : (lhs rhs : Token) (op : CmpOp) → Post InRange (cmpstr lhs rhs op)
unfolding cmpstr
cmpstr-InRange lhs rhs op =
    bind-Post Anything InRange _ _ (token_to_string-ends lhs)
      λ l _. bind-Post Anything InRange _ _ (token_to_string-ends rhs) λ r _. of_bool-InRange _

cmpop-InRange : (lhs rhs : Token) (op : CmpOp) → Post InRange (cmpop lhs rhs op)
unfolding cmpop Ops.cmpint
cmpop-InRange (integer l) (integer r) op = of_bool-InRange _
cmpop-InRange (integer l) rhs op = cmpstr-InRange (str (show_i64 l)) rhs op
cmpop-InRange lhs (integer r) op = cmpstr-InRange lhs (str (show_i64 r)) op
cmpop-InRange lhs rhs op = cmpstr-InRange lhs rhs op

pub logop-cases :
    (lhs rhs : Token) (b : Bool)
    → (logop lhs rhs b ≡ lhs) ⊎ (logop lhs rhs b ≡ rhs) ⊎ (logop lhs rhs b ≡ integer (pos 0))
unfolding logop
logop-cases lhs rhs b = ground arith

logop-InRange : (lhs rhs : Token) (b : Bool) → InRange lhs → InRange rhs → InRange (logop lhs rhs b)
logop-InRange lhs rhs b h k = elim (logop-cases lhs rhs b) [
  | inl e ↦ subst InRange (sym e) h
  | inr (inl e) ↦ subst InRange (sym e) k
  | inr (inr e) ↦ subst InRange (sym e) (omega arith)
]

match_token-InRange : (g : Option Str) (w : Str) → InRange (Ops.match_token g w)
match_token-InRange (some s) w = tt
match_token-InRange none w = wrap_i64-IsI64 (pos (length w))

matched-InRange : (o : Option Ops.Match) → InRange (Ops.matched o)
matched-InRange none = omega arith
matched-InRange (some m) = match_token-InRange m.group1 m.whole

matchop-InRange : (regex : RegexCrate) (lhs rhs : Token) → Post InRange (matchop regex lhs rhs)
unfolding matchop
matchop-InRange regex lhs rhs =
    bind-Post Anything InRange _ _ (token_to_string-ends lhs)
      λ l _. bind-Post Anything InRange _ _ (token_to_string-ends rhs) λ r _. found (regex r) l
  where
    found : (c : Option (Str → Option Ops.Match)) (s : Str) → Post InRange (Ops.search_with c s)
    found none s = tt
    found (some captures) s = matched-InRange (captures s)

pub apply-InRange :
    (regex : RegexCrate) (checked : Bool) (lhs op rhs : Token)
    → InRange lhs
    → InRange rhs
    → Post InRange (apply regex checked lhs op rhs)
unfolding apply
apply-InRange regex checked lhs Token.op_add rhs h k = intop-InRange checked lhs rhs _ h k
apply-InRange regex checked lhs Token.op_sub rhs h k = intop-InRange checked lhs rhs _ h k
apply-InRange regex checked lhs Token.op_mul rhs h k = intop-InRange checked lhs rhs _ h k
apply-InRange regex checked lhs Token.op_div rhs h k = intop-InRange checked lhs rhs _ h k
apply-InRange regex checked lhs Token.op_rem rhs h k = intop-InRange checked lhs rhs _ h k
apply-InRange regex checked lhs Token.op_eq rhs h k = cmpop-InRange lhs rhs _
apply-InRange regex checked lhs Token.op_ne rhs h k = cmpop-InRange lhs rhs _
apply-InRange regex checked lhs Token.op_gt rhs h k = cmpop-InRange lhs rhs _
apply-InRange regex checked lhs Token.op_lt rhs h k = cmpop-InRange lhs rhs _
apply-InRange regex checked lhs Token.op_ge rhs h k = cmpop-InRange lhs rhs _
apply-InRange regex checked lhs Token.op_le rhs h k = cmpop-InRange lhs rhs _
apply-InRange regex checked lhs Token.op_and rhs h k = logop-InRange lhs rhs true h k
apply-InRange regex checked lhs Token.op_or rhs h k = logop-InRange lhs rhs false h k
apply-InRange regex checked lhs Token.op_match rhs h k = matchop-InRange regex lhs rhs
apply-InRange regex checked lhs _ rhs h k = tt

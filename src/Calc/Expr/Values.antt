-- ===== src/Calc/Expr/Values.antt =====
-- What `eval_expression` returns.
use posixutils_rs.Prelude.{
  ℕ, zero, suc, ◌+◌, ◌-◌, ◌^◌, ◌<◌, ◌≤◌, ◌≡◌, ◌≢◌, refl, List, [], ◌∷◌, Option, none, some, arith,
  length, take, drop, All, map, Bool, true, Bool-cases, inl, inr, ◌*◌, ◌==◌,
}
use mathlib.Core.Option
use posixutils_rs.Std.Strings.{Str, match_str-All}
use posixutils_rs.Std.Integers.{ℤ, pos, IsI64, signed}
use posixutils_rs.Std.Numerals.{parse_i64, decimal, decimal_digits}
use posixutils_rs.Calc.Expr.Token
use posixutils_rs.Calc.Expr.Token.{
  Token, integer, str, Result, ok, err, panic, out_of_fuel, ◌>>?◌, parse_token,
}
use posixutils_rs.Calc.Expr.Ops.{RegexCrate}
use posixutils_rs.Calc.Expr.Eval.{
  find_matching_paren, is_left_paren, open_left, open_right, round, eval_fuel, eval_expression,
  final_result,
}
use posixutils_rs.Calc.Expr.Fuel.{
  eval_fuel-enough, eval_expression-round, Post, bind-Post, inner-shorter, outer-shorter,
  find_matching_paren_bounds,
}
use posixutils_rs.Calc.Expr.Range.{InRange, IsValue, apply-InRange}

IsValue-InRange : (t : Token) → IsValue t → InRange t
IsValue-InRange (integer z) h = h
IsValue-InRange _ h = tt

final_result-IsValue : (t : Token) → InRange t → Post IsValue (final_result (t ∷ []))
final_result-IsValue (integer z) h = h
final_result-IsValue _ h = tt

All-take : (n : ℕ) (ts : List Token) → All InRange ts → All InRange (take n ts)
All-take zero ts h = tt
All-take (suc n) [] h = tt
All-take (suc n) (t ∷ ts) h = (h.0, All-take n ts h.1)

All-drop : (n : ℕ) (ts : List Token) → All InRange ts → All InRange (drop n ts)
All-drop zero ts h = h
All-drop (suc n) [] h = tt
All-drop (suc n) (t ∷ ts) h = All-drop n ts h.1

abbrev ValuesBelow : (List Token → Result Token) → ℕ → Type 0
ValuesBelow e n = (ts : List Token) → length ts < n → All InRange ts → Post IsValue (e ts)

module _ (regex : RegexCrate) (checked : Bool) where
  module _ (e : List Token → Result Token) where
    open_left-IsValue :
        (t : Token) (tokens : List Token) (o : Option ℕ)
        → is_left_paren t ≡ true
        → find_matching_paren (t ∷ tokens) ≡ o
        → All InRange (t ∷ tokens)
        → ValuesBelow e (suc (length tokens))
        → Post IsValue (open_left regex checked e (t ∷ tokens) o)
    open_left-IsValue t tokens none p h a k = tt
    open_left-IsValue t tokens (some i) p h a k =
        let (lo, hi) = find_matching_paren_bounds t tokens i p h in
        bind-Post IsValue IsValue _ _
          (k _ (inner-shorter t tokens i hi) (All-take (i - 1) tokens a.1))
          λ r v.
            k _ (outer-shorter t tokens i lo hi)
              (IsValue-InRange r v, All-drop (i + 1) (t ∷ tokens) a)

    open_right-IsValue :
        (lhs op t : Token) (tokens : List Token) (o : Option ℕ)
        → is_left_paren t ≡ true
        → find_matching_paren (t ∷ tokens) ≡ o
        → All InRange (lhs ∷ op ∷ t ∷ tokens)
        → ValuesBelow e (suc (suc (suc (length tokens))))
        → Post IsValue (open_right regex checked e lhs op (t ∷ tokens) o)
    open_right-IsValue lhs op t tokens none p h a k = tt
    open_right-IsValue lhs op t tokens (some i) p h (h0, (h1, (h2, a))) k =
        let (lo, hi) = find_matching_paren_bounds t tokens i p h in
        let inner = inner-shorter t tokens i hi in
        let outer = outer-shorter t tokens i lo hi in
        bind-Post IsValue IsValue _ _
          (k (take (i - 1) tokens) (omega (arith, inner)) (All-take (i - 1) tokens a))
          λ r v.
            k (lhs ∷ op ∷ r ∷ drop (i + 1) (t ∷ tokens)) (omega (arith, outer))
              (h0, (h1, (IsValue-InRange r v, All-drop (i + 1) (t ∷ tokens) (h2, a))))

    round-IsValue :
        (tokens : List Token)
        → All InRange tokens
        → ValuesBelow e (length tokens)
        → Post IsValue (round regex checked e tokens)
    unfolding round
    round-IsValue [] a h = tt
    round-IsValue (t0 ∷ []) a h = final_result-IsValue t0 a.0
    round-IsValue (t0 ∷ t1 ∷ []) a h = tt
    round-IsValue (t0 ∷ t1 ∷ t2 ∷ rest) a h = elim (Bool-cases (is_left_paren t0)) [
      | inl left ↦ rw left (open_left-IsValue t0 (t1 ∷ t2 ∷ rest) _ left refl a h)
      | inr plain ↦ elim (Bool-cases (is_left_paren t2)) [
        | inl right ↦ rw plain (rw right (open_right-IsValue t0 t1 t2 rest _ right refl a h))
        | inr plain' ↦
            let (h0, (h1, (h2, a'))) = a in
            rw plain (
              rw plain' (
                bind-Post InRange IsValue _ _ (apply-InRange regex checked t0 t1 t2 h0 h2)
                  λ r v. h (r ∷ rest) (omega arith) (v, a')))
      ]
    ]

  eval_fuel-IsValue :
      (fuel : ℕ) (tokens : List Token)
      → length tokens < fuel
      → All InRange tokens
      → Post IsValue (eval_fuel regex checked fuel tokens)
  unfolding eval_fuel
  eval_fuel-IsValue zero tokens h a = absurd (omega arith)
  eval_fuel-IsValue (suc fuel) tokens h a =
      round-IsValue (eval_fuel regex checked fuel) tokens a
        λ ts l. eval_fuel-IsValue fuel ts (omega arith)

decimal_digits_le :
    (limit n : ℕ) (s : Str) (m : ℕ) → n ≤ limit → decimal_digits limit n s ≡ some m → m ≤ limit
unfolding decimal_digits
decimal_digits_le limit n [] m h e = ground arith
decimal_digits_le limit n (c ∷ cs) m h e =
    ground (arith, decimal_digits_le limit (n * 10 + (c - 48)) cs m)

decimal_le : (limit : ℕ) (s : Str) (m : ℕ) → decimal limit s ≡ some m → m ≤ limit
unfolding decimal
decimal_le limit [] m e = cc
decimal_le limit (c ∷ cs) m e = decimal_digits_le limit 0 (c ∷ cs) m (omega arith) e

abbrev IntegerIsI64 : Option ℤ → Type 0
IntegerIsI64 none = Unit
IntegerIsI64 (some z) = IsI64 z

negative-IsI64 :
    (o : Option ℕ) → ((m : ℕ) → o ≡ some m → m ≤ 2 ^ 63) → IntegerIsI64 (Option.map (signed true) o)
negative-IsI64 none h = tt
negative-IsI64 (some m) h = let l = h m refl in ground (arith, l)

positive-IsI64 :
    (o : Option ℕ) → ((m : ℕ) → o ≡ some m → m ≤ 2 ^ 63 - 1) → IntegerIsI64 (Option.map pos o)
positive-IsI64 none h = tt
positive-IsI64 (some m) h = let l = h m refl in omega (arith, l)

parse_i64-IsI64 : (s : Str) → IntegerIsI64 (parse_i64 s)
unfolding parse_i64
parse_i64-IsI64 [] = tt
parse_i64-IsI64 (c ∷ cs) = elim (Bool-cases (c == 45)) [
  | inl e ↦ rw e (negative-IsI64 (decimal (2 ^ 63) cs) (decimal_le (2 ^ 63) cs))
  | inr e ↦ rw e (positive-IsI64 _ (decimal_le (2 ^ 63 - 1) _))
]

or_str-InRange : (o : Option ℤ) (s : Str) → IntegerIsI64 o → InRange (Token.or_str o s)
or_str-InRange none s h = tt
or_str-InRange (some z) s h = h

symbols-InRange : All (λ arm. InRange arm.1) Token.symbols
symbols-InRange = (
  tt,
  (tt, (tt, (tt, (tt, (tt, (tt, (tt, (tt, (tt, (tt, (tt, (tt, (tt, (tt, (tt, tt))))))))))))))),
)

or_operand-InRange :
    (o : Option Token) (s : Str)
    → ((t : Token) → o ≡ some t → InRange t)
    → InRange (Token.or_operand o s)
or_operand-InRange none s h = or_str-InRange (parse_i64 s) s (parse_i64-IsI64 s)
or_operand-InRange (some t) s h = h t refl

parse_token-InRange : (s : Str) → InRange (parse_token s)
unfolding parse_token
parse_token-InRange s =
    or_operand-InRange _ s λ t. match_str-All (λ _. InRange) Token.symbols s t symbols-InRange

tokens-InRange : (args : List Str) → All InRange (map parse_token args)
tokens-InRange [] = tt
tokens-InRange (s ∷ args) = (parse_token-InRange s, tokens-InRange args)

-- For every list of arguments `eval_expression` ends, within the fuel of the model, with an error, a panic or a
-- value: a string or an integer that an `i64` holds. It never ends with an operator or a parenthesis, for
-- which `token_display` would panic.
pub eval_expression-IsValue :
    (regex : RegexCrate) (checked : Bool) (args : List Str)
    → Post IsValue (eval_expression regex checked (map parse_token args))
unfolding eval_expression
eval_expression-IsValue regex checked args =
    eval_fuel-IsValue regex checked _ (map parse_token args) (omega arith) (tokens-InRange args)

Post-ne-out_of_fuel : (r : Result Token) → Post IsValue r → r ≢ out_of_fuel
Post-ne-out_of_fuel (ok t) h = λ e. cc
Post-ne-out_of_fuel (err x) h = λ e. cc
Post-ne-out_of_fuel panic h = λ e. cc
Post-ne-out_of_fuel out_of_fuel h = absurd h

-- The loop and the recursion of `eval_expression` end: on all tokens whose integers an `i64` holds, whatever
-- their order and their parentheses, the fuel of one more than the number of tokens is not used up, any more
-- fuel gives the same result, and that result is one round whose calls are those of `eval_expression` itself.
pub eval_expression-ends :
    (regex : RegexCrate) (checked : Bool) (tokens : List Token) (fuel : ℕ)
    → All InRange tokens
    → length tokens < fuel
    → (eval_expression regex checked tokens ≢ out_of_fuel)
      × (eval_fuel regex checked fuel tokens ≡ eval_expression regex checked tokens)
      × (eval_expression regex checked tokens
          ≡ round regex checked (eval_expression regex checked) tokens)
unfolding eval_expression
eval_expression-ends regex checked tokens fuel a h = (
  Post-ne-out_of_fuel _
      (eval_fuel-IsValue regex checked (suc (length tokens)) tokens (omega arith) a),
  eval_fuel-enough regex checked fuel (suc (length tokens)) tokens h (omega arith),
  eval_expression-round regex checked tokens,
)

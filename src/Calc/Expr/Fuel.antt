-- ===== src/Calc/Expr/Fuel.antt =====
-- The rounds of `eval_expression` call it for shorter sequences, so its fuel is enough.
use posixutils_rs.Prelude.{
  ℕ, zero, suc, ◌+◌, ◌-◌, ◌<◌, ◌≤◌, ◌≡◌, refl, List, [], ◌∷◌, Option, none, some, arith, length,
  length-take, length-drop, take, drop, Bool, true, Bool-cases, inl, inr,
}
use posixutils_rs.Calc.Expr.Token.{Token, Result, ok, err, panic, out_of_fuel, ◌>>?◌}
use posixutils_rs.Calc.Expr.Ops.{RegexCrate}
use posixutils_rs.Calc.Expr.Eval.{
  find_from, find_matching_paren, is_left_paren, open_left, open_right, round, eval_fuel,
  eval_expression,
}

find_from_bounds :
    (i depth : ℕ) (tokens : List Token) (j : ℕ)
    → find_from i depth tokens ≡ some j
    → (i ≤ j) × (j < i + length tokens)
unfolding find_from
find_from_bounds i depth [] j h = cc
find_from_bounds i depth (t ∷ tokens) j h = ground (
  arith,
  find_from_bounds (suc i) (suc depth) tokens j,
  find_from_bounds (suc i) depth tokens j,
  find_from_bounds (suc i) (depth - 1) tokens j,
)

pub find_matching_paren_bounds :
    (t : Token) (tokens : List Token) (i : ℕ)
    → is_left_paren t ≡ true
    → find_matching_paren (t ∷ tokens) ≡ some i
    → (1 ≤ i) × (i < suc (length tokens))
unfolding find_matching_paren find_from
find_matching_paren_bounds t tokens i p h = ground (arith, find_from_bounds 1 1 tokens i)

-- `r` is `ok` of a value with `P`, or ends in an error.
abbrev pub Post {ℓ} : {A : Type ℓ} → (A → Type 0) → Result A → Type 0
Post P (ok a) = P a
Post P (err _) = Unit
Post P panic = Unit
Post P out_of_fuel = ⊥

pub bind-Post {ℓ κ} :
    {A : Type ℓ} {B : Type κ} (P : A → Type 0) (Q : B → Type 0) (r : Result A) (next : A → Result B)
    → Post P r
    → ((a : A) → P a → Post Q (next a))
    → Post Q (r >>? next)
bind-Post P Q (ok a) next p q = q a p
bind-Post P Q (err e) next p q = tt
bind-Post P Q panic next p q = tt
bind-Post P Q out_of_fuel next p q = absurd p

pub bind-congr {ℓ κ} :
    {A : Type ℓ} {B : Type κ} (r : Result A) (f g : A → Result B)
    → ((a : A) → r ≡ ok a → f a ≡ g a)
    → (r >>? f) ≡ (r >>? g)
bind-congr (ok a) f g e = e a refl
bind-congr (err x) f g e = refl
bind-congr panic f g e = refl
bind-congr out_of_fuel f g e = refl

-- The parts of a sequence whose parenthesis closes at `i`.
pub inner-shorter :
    (t : Token) (tokens : List Token) (i : ℕ)
    → i < suc (length tokens)
    → length (take (i - 1) (drop 1 (t ∷ tokens))) < suc (length tokens)
inner-shorter t tokens i h = omega (arith, length-take (i - 1) tokens)

pub outer-shorter :
    (t : Token) (tokens : List Token) (i : ℕ)
    → 1 ≤ i
    → i < suc (length tokens)
    → suc (length (drop (i + 1) (t ∷ tokens))) < suc (length tokens)
outer-shorter t tokens i k h = omega (arith, length-drop (i + 1) (t ∷ tokens))

abbrev AgreeBelow : (List Token → Result Token) → (List Token → Result Token) → ℕ → Type 0
AgreeBelow e f n = (ts : List Token) → length ts < n → e ts ≡ f ts

module _ (regex : RegexCrate) (checked : Bool) where
  module _ (e f : List Token → Result Token) where
    open_left-congr :
        (t : Token) (tokens : List Token) (o : Option ℕ)
        → is_left_paren t ≡ true
        → find_matching_paren (t ∷ tokens) ≡ o
        → AgreeBelow e f (suc (length tokens))
        → open_left regex checked e (t ∷ tokens) o ≡ open_left regex checked f (t ∷ tokens) o
    open_left-congr t tokens none p h k = refl
    open_left-congr t tokens (some i) p h k =
        let (lo, hi) = find_matching_paren_bounds t tokens i p h in
        rw (k _ (inner-shorter t tokens i hi))
          (bind-congr _ _ _ λ r _. k _ (outer-shorter t tokens i lo hi))

    open_right-congr :
        (lhs op t : Token) (tokens : List Token) (o : Option ℕ)
        → is_left_paren t ≡ true
        → find_matching_paren (t ∷ tokens) ≡ o
        → AgreeBelow e f (suc (suc (suc (length tokens))))
        → open_right regex checked e lhs op (t ∷ tokens) o
          ≡ open_right regex checked f lhs op (t ∷ tokens) o
    open_right-congr lhs op t tokens none p h k = refl
    open_right-congr lhs op t tokens (some i) p h k =
        let (lo, hi) = find_matching_paren_bounds t tokens i p h in
        let inner = inner-shorter t tokens i hi in
        let outer = outer-shorter t tokens i lo hi in
        rw (k (take (i - 1) tokens) (omega (arith, inner))) (
          bind-congr _ _ _
            λ r _. k (lhs ∷ op ∷ r ∷ drop (i + 1) (t ∷ tokens)) (omega (arith, outer)))

    round-congr :
        (tokens : List Token)
        → AgreeBelow e f (length tokens)
        → round regex checked e tokens ≡ round regex checked f tokens
    unfolding round
    round-congr [] h = refl
    round-congr (t0 ∷ []) h = refl
    round-congr (t0 ∷ t1 ∷ []) h = refl
    round-congr (t0 ∷ t1 ∷ t2 ∷ rest) h = elim (Bool-cases (is_left_paren t0)) [
      | inl left ↦ rw left (open_left-congr t0 (t1 ∷ t2 ∷ rest) _ left refl h)
      | inr plain ↦ elim (Bool-cases (is_left_paren t2)) [
        | inl right ↦ rw plain (rw right (open_right-congr t0 t1 t2 rest _ right refl h))
        | inr plain' ↦ rw plain (rw plain' (bind-congr _ _ _ λ r _. h (r ∷ rest) (omega arith)))
      ]
    ]

  pub eval_fuel-enough :
      (fuel fuel' : ℕ) (tokens : List Token)
      → length tokens < fuel
      → length tokens < fuel'
      → eval_fuel regex checked fuel tokens ≡ eval_fuel regex checked fuel' tokens
  unfolding eval_fuel
  eval_fuel-enough zero fuel' tokens h k = absurd (omega arith)
  eval_fuel-enough (suc fuel) zero tokens h k = absurd (omega arith)
  eval_fuel-enough (suc fuel) (suc fuel') tokens h k =
      round-congr (eval_fuel regex checked fuel) (eval_fuel regex checked fuel') tokens
        λ ts l. eval_fuel-enough fuel fuel' ts (omega arith) (omega arith)

  pub eval_expression-round :
      (tokens : List Token)
      → eval_expression regex checked tokens
        ≡ round regex checked (eval_expression regex checked) tokens
  unfolding eval_expression eval_fuel
  eval_expression-round tokens =
      round-congr (eval_fuel regex checked (length tokens)) (eval_expression regex checked) tokens
        λ ts h. eval_fuel-enough (length tokens) (suc (length ts)) ts h (omega arith)

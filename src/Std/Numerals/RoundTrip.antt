-- ===== src/Std/Numerals/RoundTrip.antt =====
-- `i64` printed and read back.
use mathlib.Core.Option
use posixutils_rs.Prelude.{
  ℕ, zero, suc, ◌+◌, ◌-◌, ◌*◌, ◌/◌, ◌%◌, ◌^◌, ◌<◌, ◌≤◌, ◌≡◌, refl, ap, ◌∙◌, subst, ◌⊎◌, inl, inr,
  [], ◌∷◌, ◌++◌, some, ◌>>=◌, arith,
}
use posixutils_rs.Std.Strings.{Str}
use posixutils_rs.Std.Integers.{ℤ, pos, negsuc, IsI64}
use posixutils_rs.Std.Numerals.{decimal_digits, decimal, parse_i64, show_digits, show_i64}

decimal_digits-append :
    (limit n : ℕ) (s t : Str)
    → decimal_digits limit n (s ++ t) ≡ decimal_digits limit n s >>= λ m. decimal_digits limit m t
unfolding decimal_digits
decimal_digits-append limit n [] t = refl
decimal_digits-append limit n (c ∷ s) t =
    ground (arith, decimal_digits-append limit (n * 10 + (c - 48)) s t)

decimal_digits-one :
    (limit n c : ℕ)
    → 48 ≤ c
    → c ≤ 57
    → n * 10 + (c - 48) ≤ limit
    → decimal_digits limit n (c ∷ []) ≡ some (n * 10 + (c - 48))
unfolding decimal_digits
decimal_digits-one limit n c h k l = ground arith

show_digits-small : (fuel n : ℕ) → n < 10 → show_digits (suc fuel) n ≡ (48 + n) ∷ []
unfolding show_digits
show_digits-small fuel n h = ground arith

show_digits-large :
    (fuel n : ℕ)
    → 10 ≤ n
    → show_digits (suc fuel) n ≡ show_digits fuel (n / 10) ++ (48 + n % 10) ∷ []
unfolding show_digits
show_digits-large fuel n h = ground arith

nothing : (limit : ℕ) → decimal_digits limit 0 (show_digits 0 0) ≡ some 0
unfolding decimal_digits show_digits
nothing limit = refl

show_digits-none : (n : ℕ) → show_digits 0 n ≡ []
unfolding show_digits
show_digits-none n = refl

power : (fuel n : ℕ) → n < 10 ^ suc fuel → n / 10 < 10 ^ fuel
power fuel n h = let e : 10 ^ suc fuel ≡ 10 ^ fuel * 10 = omega arith in grind arith

parse_i64-plain :
    (c : ℕ) (cs : Str)
    → 48 ≤ c
    → parse_i64 (c ∷ cs) ≡ Option.map pos (decimal (2 ^ 63 - 1) (c ∷ cs))
unfolding parse_i64
parse_i64-plain c cs h = ground arith

is_small : (n : ℕ) → (n < 10) ⊎ (10 ≤ n)
is_small n = omega arith

decimal_digits-show_digits :
    (limit fuel n : ℕ)
    → n < 10 ^ fuel
    → n ≤ limit
    → decimal_digits limit 0 (show_digits fuel n) ≡ some n
decimal_digits-show_digits limit zero n h k =
    let e : 0 ≡ n = omega arith in
    subst (λ k. decimal_digits limit 0 (show_digits 0 k) ≡ some k) e (nothing limit)
decimal_digits-show_digits limit (suc fuel) n h k = elim (is_small n) [
  | inl small ↦ rw (show_digits-small fuel n small) (
      rw (decimal_digits-one limit 0 (48 + n) (omega arith) (omega arith) (omega arith))
        (ap some (omega arith)))
  | inr large ↦
      let hyp : decimal_digits limit 0 (show_digits fuel (n / 10)) ≡ some (n / 10) =
        decimal_digits-show_digits limit fuel (n / 10) (power fuel n h) (omega arith) in
      rw (show_digits-large fuel n large) (
        rw (decimal_digits-append limit 0 (show_digits fuel (n / 10)) ((48 + n % 10) ∷ [])) (
          rw hyp (
            rw
              (decimal_digits-one limit (n / 10) (48 + n % 10) (omega arith) (omega arith)
                (omega arith))
              (ap some (omega arith)))))
]

pub show_digits-cons :
    (fuel n : ℕ) → (c : ℕ) × (cs : Str) × (show_digits (suc fuel) n ≡ c ∷ cs) × (48 ≤ c) × (c ≤ 57)
show_digits-cons zero n = elim (is_small n) [
  | inl small ↦ (48 + n, [], show_digits-small 0 n small, omega arith, omega arith)
  | inr large ↦ (
    48 + n % 10,
    [],
    show_digits-large 0 n large
        ∙ ap (λ (s : Str). s ++ (48 + n % 10) ∷ []) (show_digits-none (n / 10)),
    omega arith,
    omega arith,
  )
]
show_digits-cons (suc fuel) n = elim (is_small n) [
  | inl small ↦ (48 + n, [], show_digits-small (suc fuel) n small, omega arith, omega arith)
  | inr large ↦
      let (c, cs, e, h, k) = show_digits-cons fuel (n / 10) in
      (
        c,
        cs ++ (48 + n % 10) ∷ [],
        show_digits-large (suc fuel) n large ∙ ap (λ (s : Str). s ++ (48 + n % 10) ∷ []) e,
        h,
        k,
      )
]

decimal-show_digits :
    (limit fuel n : ℕ)
    → n < 10 ^ suc fuel
    → n ≤ limit
    → decimal limit (show_digits (suc fuel) n) ≡ some n
unfolding decimal
decimal-show_digits limit fuel n h k =
    let (c, cs, e, _, _) = show_digits-cons fuel n in
    rw e (
      subst (λ s. decimal_digits limit 0 s ≡ some n) e
        (decimal_digits-show_digits limit (suc fuel) n h k))

pub parse_i64-show_i64 : (z : ℤ) → IsI64 z → parse_i64 (show_i64 z) ≡ some z
unfolding parse_i64 show_i64
parse_i64-show_i64 (pos n) h =
    let (c, cs, e, k, _) = show_digits-cons 18 n in
    let d : decimal (2 ^ 63 - 1) (c ∷ cs) ≡ some n =
      subst (λ s. decimal (2 ^ 63 - 1) s ≡ some n) e
        (decimal-show_digits (2 ^ 63 - 1) 18 n (omega arith) (omega arith)) in
    rw e (parse_i64-plain c cs k ∙ ap (Option.map pos) d)
parse_i64-show_i64 (negsuc n) h =
    let d : decimal (2 ^ 63) (show_digits 19 (n + 1)) ≡ some (n + 1) =
      decimal-show_digits (2 ^ 63) 18 (n + 1) (omega arith) (omega arith) in
    rw d (ap some (ground arith))

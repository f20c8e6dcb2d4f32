-- ===== src/Std/Integers.antt =====
-- Signed integers over the native numbers, and `i64` with what Rust does where a result does not fit.
use posixutils_rs.Prelude.{
  ℕ, suc, ◌+◌, ◌-◌, ◌*◌, ◌/◌, ◌%◌, ◌^◌, ◌<◌, ◌≤◌, ◌≡◌, Bool, true, false, not, ◌&&◌, ltb, leb, ◌==◌,
  if◌then◌else◌, arith,
}

-- `negsuc n` is -(n + 1).
pub data ℤ : Type 0 where
  pos negsuc : ℕ → ℤ

-- An integer is the difference of its two parts, of which one is 0.
abbrev pub plus_part : ℤ → ℕ
plus_part (pos n) = n
plus_part (negsuc _) = 0

abbrev pub minus_part : ℤ → ℕ
minus_part (pos _) = 0
minus_part (negsuc n) = suc n

abbrev pub is_negative : ℤ → Bool
is_negative (pos _) = false
is_negative (negsuc _) = true

abbrev pub abs : ℤ → ℕ
abs z = plus_part z + minus_part z

abbrev pub difference : ℕ → ℕ → ℤ
difference m n = if ltb m n then negsuc (n - m - 1) else pos (m - n)

abbrev pub signed : Bool → ℕ → ℤ
signed negative n = if negative then difference 0 n else pos n

infixl 65 ◌+ℤ◌ ◌-ℤ◌
infixl 70 ◌*ℤ◌
unfoldable pub ◌+ℤ◌ : ℤ → ℤ → ℤ
x +ℤ y = difference (plus_part x + plus_part y) (minus_part x + minus_part y)

unfoldable pub ◌-ℤ◌ : ℤ → ℤ → ℤ
x -ℤ y = difference (plus_part x + minus_part y) (minus_part x + plus_part y)

unfoldable pub ◌*ℤ◌ : ℤ → ℤ → ℤ
x *ℤ y =
    if is_negative x
    then signed (not (is_negative y)) (abs x * abs y)
    else signed (is_negative y) (abs x * abs y)

-- `/` and `%` round towards 0, so that the remainder has the sign of the dividend.
unfoldable pub quotient : ℤ → ℤ → ℤ
quotient x y =
    if is_negative x
    then signed (not (is_negative y)) (abs x / abs y)
    else signed (is_negative y) (abs x / abs y)

unfoldable pub remainder : ℤ → ℤ → ℤ
remainder x y = signed (is_negative x) (abs x % abs y)

unfoldable pub lt_ℤ : ℤ → ℤ → Bool
lt_ℤ x y = ltb (plus_part x + minus_part y) (plus_part y + minus_part x)

unfoldable pub eq_ℤ : ℤ → ℤ → Bool
eq_ℤ x y = plus_part x == plus_part y && minus_part x == minus_part y

abbrev pub IsI64 : ℤ → Type 0
IsI64 z = (plus_part z < 2 ^ 63) × (minus_part z ≤ 2 ^ 63)

unfoldable pub fits_i64 : ℤ → Bool
fits_i64 z = ltb (plus_part z) (2 ^ 63) && leb (minus_part z) (2 ^ 63)

-- The `i64` with these 64 bits.
unfoldable pub of_bits : ℕ → ℤ
of_bits n = if ltb n (2 ^ 63) then pos n else negsuc (2 ^ 64 - 1 - n)

unfoldable pub wrap_i64 : ℤ → ℤ
wrap_i64 (pos n) = of_bits (n % 2 ^ 64)
wrap_i64 (negsuc n) = of_bits (2 ^ 64 - 1 - n % 2 ^ 64)

pub of_bits-IsI64 : (n : ℕ) → IsI64 (of_bits n)
unfolding of_bits
of_bits-IsI64 n = ground arith

pub wrap_i64-IsI64 : (z : ℤ) → IsI64 (wrap_i64 z)
unfolding wrap_i64
wrap_i64-IsI64 (pos n) = of_bits-IsI64 (n % 2 ^ 64)
wrap_i64-IsI64 (negsuc n) = of_bits-IsI64 (2 ^ 64 - 1 - n % 2 ^ 64)

pub fits_i64-IsI64 : (z : ℤ) → fits_i64 z ≡ true → IsI64 z
unfolding fits_i64
fits_i64-IsI64 z h = ground arith

-- What fits is kept.
pub wrap_i64_lem : (z : ℤ) → IsI64 z → wrap_i64 z ≡ z
unfolding wrap_i64 of_bits
wrap_i64_lem (pos n) h = ground arith
wrap_i64_lem (negsuc n) h = ground arith

pub lt_ℤ-total : (x y : ℤ) → lt_ℤ x y ≡ false → lt_ℤ y x ≡ false → eq_ℤ x y ≡ true
unfolding lt_ℤ eq_ℤ
lt_ℤ-total (pos m) (pos n) p q = ground arith
lt_ℤ-total (pos m) (negsuc n) p q = ground arith
lt_ℤ-total (negsuc m) (pos n) p q = ground arith
lt_ℤ-total (negsuc m) (negsuc n) p q = ground arith

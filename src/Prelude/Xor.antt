-- ===== src/Prelude/Xor.antt =====
-- Exclusive or of numbers at variables: its laws, and how it meets shifts and remainders by powers of two.
use Prim.Native.Nat.{
  ℕ, zero, suc, ◌+◌, ◌*◌, ◌/◌, ◌%◌, ◌^◌, ◌≤◌, ◌<◌, bit_xor, bit_xor-bitwise, differ,
}
use mathlib.Core.Path.{◌≡◌, refl, ap, sym, subst, ◌∙◌}
use native.Mathlib.Nat.{mod-lt, mod-eq_of_lt, one-le-pow, pow-suc, div-div-eq-div-mul}
use native.Mathlib.Omega.{arith}
use posixutils_rs.Prelude.Bits.{digits-half, low_mask_split, times_two_pow}

infixl 60 ◌⊕◌
abbrev pub ◌⊕◌ : ℕ → ℕ → ℕ
x ⊕ y = bit_xor x y

differ_lem : (a b : ℕ) → a < 2 → b < 2 → differ a b ≡ (a + b) % 2
differ_lem zero zero h k = refl
differ_lem zero (suc zero) h k = refl
differ_lem (suc zero) zero h k = refl
differ_lem (suc zero) (suc zero) h k = refl
differ_lem zero (suc (suc b)) h k = absurd (omega arith)
differ_lem (suc zero) (suc (suc b)) h k = absurd (omega arith)
differ_lem (suc (suc a)) b h k = absurd (omega arith)

xor_digits : (x y : ℕ) → x ⊕ y ≡ (x / 2 ⊕ y / 2) * 2 + differ (x % 2) (y % 2)
xor_digits zero y = simp bit_xor-bitwise (omega arith)
xor_digits (suc x) y =
    let half = digits-half (λ d. d) differ x (y / 2) in
    rw (bit_xor-bitwise (suc x) y, bit_xor-bitwise (suc x / 2) (y / 2), half) refl

pub xor_halves : (x y : ℕ) → x ⊕ y ≡ (x / 2 ⊕ y / 2) * 2 + (x % 2 + y % 2) % 2
xor_halves x y =
    omega (arith, xor_digits x y, differ_lem (x % 2) (y % 2) (omega arith) (omega arith))

pub xor_half : (x y : ℕ) → (x ⊕ y) / 2 ≡ x / 2 ⊕ y / 2
xor_half x y = omega (arith, xor_halves x y)

pub xor_parity : (x y : ℕ) → (x ⊕ y) % 2 ≡ (x % 2 + y % 2) % 2
xor_parity x y = omega (arith, xor_halves x y)

comm_below : (bound x y : ℕ) → x ≤ bound → y ≤ bound → x ⊕ y ≡ y ⊕ x
comm_below zero x y h k = let e : x ≡ y = omega arith in rw e refl
comm_below (suc bound) x y h k =
    let ih = comm_below bound (x / 2) (y / 2) (omega arith) (omega arith) in
    omega (arith, xor_halves x y, xor_halves y x)

pub xor_comm : (x y : ℕ) → x ⊕ y ≡ y ⊕ x
xor_comm x y = comm_below (x + y) x y (omega arith) (omega arith)

pub zero_xor : (x : ℕ) → 0 ⊕ x ≡ x
zero_xor x = bit_xor-bitwise 0 x

pub xor_zero : (x : ℕ) → x ⊕ 0 ≡ x
xor_zero x = xor_comm x 0 ∙ zero_xor x

assoc_below : (bound x y z : ℕ) → x ≤ bound → y ≤ bound → z ≤ bound → x ⊕ y ⊕ z ≡ x ⊕ (y ⊕ z)
assoc_below zero x y z h k l =
    let e : x ≡ 0 = omega arith in
    let e' : y ≡ 0 = omega arith in let e'' : z ≡ 0 = omega arith in rw (e, e', e'') refl
assoc_below (suc bound) x y z h k l =
    let ih = assoc_below bound (x / 2) (y / 2) (z / 2) (omega arith) (omega arith) (omega arith) in
    let left : (x ⊕ y) / 2 ⊕ z / 2 ≡ x / 2 ⊕ y / 2 ⊕ z / 2 = ap (λ t. t ⊕ z / 2) (xor_half x y) in
    let right : x / 2 ⊕ (y ⊕ z) / 2 ≡ x / 2 ⊕ (y / 2 ⊕ z / 2) =
      ap (λ t. x / 2 ⊕ t) (xor_half y z) in
    omega (arith, xor_halves (x ⊕ y) z, xor_halves x (y ⊕ z), xor_parity x y, xor_parity y z)

pub xor_assoc : (x y z : ℕ) → x ⊕ y ⊕ z ≡ x ⊕ (y ⊕ z)
xor_assoc x y z = assoc_below (x + y + z) x y z (omega arith) (omega arith) (omega arith)

pub xor_double : (x y : ℕ) → x * 2 ⊕ y * 2 ≡ (x ⊕ y) * 2
xor_double x y =
    let a : x * 2 / 2 ≡ x = omega arith in
    let b : y * 2 / 2 ≡ y = omega arith in
    let e : x * 2 / 2 ⊕ y * 2 / 2 ≡ x ⊕ y = ap (λ t. t ⊕ y * 2 / 2) a ∙ ap (λ t. x ⊕ t) b in
    omega (arith, xor_halves (x * 2) (y * 2))

half_pow : (a k : ℕ) → a / 2 / 2 ^ k ≡ a / 2 ^ suc k
half_pow a k = div-div-eq-div-mul a 2 (2 ^ k) ∙ ap (λ (t : ℕ). a / t) (omega (arith, pow-suc 2 k))

pub xor_pow : (k x y : ℕ) → x * 2 ^ k ⊕ y * 2 ^ k ≡ (x ⊕ y) * 2 ^ k
xor_pow zero x y =
    let a : x * 2 ^ 0 ≡ x = omega arith in
    let b : y * 2 ^ 0 ≡ y = omega arith in
    let c : (x ⊕ y) * 2 ^ 0 ≡ x ⊕ y = omega arith in
    ap (λ t. t ⊕ y * 2 ^ 0) a ∙ ap (λ t. x ⊕ t) b ∙ sym c
xor_pow (suc k) x y =
    ap (λ t. t ⊕ y * 2 ^ suc k) (times_two_pow x k)
    ∙ ap (λ t. x * 2 ^ k * 2 ⊕ t) (times_two_pow y k)
    ∙ xor_double (x * 2 ^ k) (y * 2 ^ k)
    ∙ ap (λ t. t * 2) (xor_pow k x y)
    ∙ sym (times_two_pow (x ⊕ y) k)

pub xor_mod : (k x y : ℕ) → (x ⊕ y) % 2 ^ k ≡ x % 2 ^ k ⊕ y % 2 ^ k
xor_mod zero x y =
    let a : x % 2 ^ 0 ≡ 0 = omega arith in
    let b : y % 2 ^ 0 ≡ 0 = omega arith in
    let c : (x ⊕ y) % 2 ^ 0 ≡ 0 = omega arith in
    c ∙ sym (ap (λ t. t ⊕ y % 2 ^ 0) a ∙ zero_xor (y % 2 ^ 0) ∙ b)
xor_mod (suc k) x y =
    let ih = xor_mod k (x / 2) (y / 2) in
    let a : x % 2 ^ suc k / 2 ≡ x / 2 % 2 ^ k = omega (arith, low_mask_split k x) in
    let b : y % 2 ^ suc k / 2 ≡ y / 2 % 2 ^ k = omega (arith, low_mask_split k y) in
    let c : (x ⊕ y) / 2 % 2 ^ k ≡ (x / 2 ⊕ y / 2) % 2 ^ k = ap (λ t. t % 2 ^ k) (xor_half x y) in
    let d : x % 2 ^ suc k / 2 ⊕ y % 2 ^ suc k / 2 ≡ x / 2 % 2 ^ k ⊕ y / 2 % 2 ^ k =
      ap (λ t. t ⊕ y % 2 ^ suc k / 2) a ∙ ap (λ t. x / 2 % 2 ^ k ⊕ t) b in
    omega (
      arith,
      xor_halves (x % 2 ^ suc k) (y % 2 ^ suc k),
      low_mask_split k (x ⊕ y),
      low_mask_split k x,
      low_mask_split k y,
      xor_parity x y,
    )

pub xor_div : (k x y : ℕ) → (x ⊕ y) / 2 ^ k ≡ x / 2 ^ k ⊕ y / 2 ^ k
xor_div zero x y =
    let a : x / 2 ^ 0 ≡ x = omega arith in
    let b : y / 2 ^ 0 ≡ y = omega arith in
    let c : (x ⊕ y) / 2 ^ 0 ≡ x ⊕ y = omega arith in
    c ∙ sym (ap (λ t. t ⊕ y / 2 ^ 0) a ∙ ap (λ t. x ⊕ t) b)
xor_div (suc k) x y =
    sym (half_pow (x ⊕ y) k)
    ∙ ap (λ t. t / 2 ^ k) (xor_half x y)
    ∙ xor_div k (x / 2) (y / 2)
    ∙ ap (λ t. t ⊕ y / 2 / 2 ^ k) (half_pow x k)
    ∙ ap (λ t. x / 2 ^ suc k ⊕ t) (half_pow y k)

pub xor-lt : (k x y : ℕ) → x < 2 ^ k → y < 2 ^ k → x ⊕ y < 2 ^ k
xor-lt k x y h l =
    let e : x ⊕ y ≡ (x ⊕ y) % 2 ^ k = sym (
      xor_mod k x y
      ∙ ap (λ t. t ⊕ y % 2 ^ k) (mod-eq_of_lt h)
      ∙ ap (λ t. x ⊕ t) (mod-eq_of_lt l)) in
    subst (λ t. t < 2 ^ k) (sym e) (mod-lt (x ⊕ y) (one-le-pow k 2 (omega arith)))

-- A field of `k` bits below a multiple of `2 ^ k`.
pub xor_field : (k q r : ℕ) → r < 2 ^ k → q * 2 ^ k ⊕ r ≡ q * 2 ^ k + r
xor_field zero q r h = let e : r ≡ 0 = omega arith in rw e (omega (arith, xor_zero (q * 2 ^ 0)))
xor_field (suc k) q r h =
    let d : q * 2 ^ suc k / 2 ≡ q * 2 ^ k = omega (arith, times_two_pow q k) in
    let ih : q * 2 ^ suc k / 2 ⊕ r / 2 ≡ q * 2 ^ k + r / 2 =
      rw d (xor_field k q (r / 2) (omega (arith, pow-suc 2 k))) in
    let m : q * 2 ^ suc k % 2 ≡ 0 = omega (arith, times_two_pow q k) in
    omega (arith, xor_halves (q * 2 ^ suc k) r, times_two_pow q k)

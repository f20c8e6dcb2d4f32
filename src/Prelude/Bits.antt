-- ===== src/Prelude/Bits.antt =====
-- The bit operations of a machine word at variables, read off their definition by binary digits:
-- one digit at a time, by single bits, and as arithmetic where a mask or a field is involved.
use Prim.Native.Nat.{
  ℕ, zero, suc, ◌+◌, ◌-◌, ◌*◌, ◌/◌, ◌%◌, ◌^◌, ◌≤◌, ◌<◌, min, max, bit_and, bit_or, digits,
  bit_and-bitwise, bit_or-bitwise, compare, Ordering,
}
use mathlib.Core.Path.{◌≡◌, refl, ap, sym, ◌∙◌}
use mathlib.Core.Bool.{Bool, true, false}
use native.Mathlib.Nat.{pow-suc, one-le-pow, div-add-mod', div-div-eq-div-mul}
use native.Mathlib.Omega.{arith}

module _ (on_end : ℕ → ℕ) (on_digit : ℕ → ℕ → ℕ) where
  digits-none : (count y : ℕ) → digits on_end on_digit count 0 y ≡ on_end y
  digits-none zero y = refl
  digits-none (suc count) y = refl

  -- Digits to go beyond those of `x` change nothing.
  digits-more :
      (more count x y : ℕ)
      → x ≤ count
      → digits on_end on_digit (count + more) x y ≡ digits on_end on_digit count x y
  digits-more more count zero y h = digits-none (count + more) y ∙ sym (digits-none count y)
  digits-more more zero (suc x) y h = absurd (omega arith)
  digits-more more (suc count) (suc x) y h =
      let shift : suc count + more ≡ suc (count + more) = omega arith in
      ap (λ (c : ℕ). digits on_end on_digit c (suc x) y) shift
      ∙ ap (λ (t : ℕ). t * 2 + on_digit (suc x % 2) (y % 2))
          (digits-more more count (suc x / 2) (y / 2) (omega arith))

  -- The count that serves for `suc x` serves for its half.
  pub digits-half :
      (x y : ℕ)
      → digits on_end on_digit x (suc x / 2) y ≡ digits on_end on_digit (suc x / 2) (suc x / 2) y
  digits-half x y =
      let parts : x ≡ suc x / 2 + (x - suc x / 2) = omega arith in
      ap (λ (count : ℕ). digits on_end on_digit count (suc x / 2) y) parts
      ∙ digits-more (x - suc x / 2) (suc x / 2) (suc x / 2) y (omega arith)

pub bit_and_halves : (x y : ℕ) → bit_and x y ≡ bit_and (x / 2) (y / 2) * 2 + min (x % 2) (y % 2)
bit_and_halves zero y = simp bit_and-bitwise (omega arith)
bit_and_halves (suc x) y =
    let half = digits-half (λ d. 0) min x (y / 2) in
    rw (bit_and-bitwise (suc x) y, bit_and-bitwise (suc x / 2) (y / 2), half) refl

pub bit_or_halves : (x y : ℕ) → bit_or x y ≡ bit_or (x / 2) (y / 2) * 2 + max (x % 2) (y % 2)
bit_or_halves zero y = simp bit_or-bitwise (omega arith)
bit_or_halves (suc x) y =
    let half = digits-half (λ d. d) max x (y / 2) in
    rw (bit_or-bitwise (suc x) y, bit_or-bitwise (suc x / 2) (y / 2), half) refl

-- Bit `i` of `a`, 0 or 1.
abbrev pub bit : ℕ → ℕ → ℕ
bit a zero = a % 2
bit a (suc i) = bit (a / 2) i

pub bit-le : (a i : ℕ) → bit a i ≤ 1
bit-le a zero = omega arith
bit-le a (suc i) = bit-le (a / 2) i

pub bit-bit_and : (a b i : ℕ) → bit (bit_and a b) i ≡ min (bit a i) (bit b i)
bit-bit_and a b zero = omega (arith, bit_and_halves a b)
bit-bit_and a b (suc i) =
    let e : bit_and a b / 2 ≡ bit_and (a / 2) (b / 2) = omega (arith, bit_and_halves a b) in
    rw e (bit-bit_and (a / 2) (b / 2) i)

pub bit-bit_or : (a b i : ℕ) → bit (bit_or a b) i ≡ max (bit a i) (bit b i)
bit-bit_or a b zero = omega (arith, bit_or_halves a b)
bit-bit_or a b (suc i) =
    let e : bit_or a b / 2 ≡ bit_or (a / 2) (b / 2) = omega (arith, bit_or_halves a b) in
    rw e (bit-bit_or (a / 2) (b / 2) i)

with_zero : (bound x : ℕ) → x ≤ bound → (bit_and x 0 ≡ 0) × (bit_or x 0 ≡ x)
with_zero zero x h = let e : x ≡ 0 = omega arith in rw e (refl, refl)
with_zero (suc bound) x h =
    let (conj, disj) = with_zero bound (x / 2) (omega arith) in
    (omega (arith, bit_and_halves x 0), omega (arith, bit_or_halves x 0))

pub bit_and-zero : (x : ℕ) → bit_and x 0 ≡ 0
bit_and-zero x = (with_zero x x (omega arith)).0

pub bit_or-zero : (x : ℕ) → bit_or x 0 ≡ x
bit_or-zero x = (with_zero x x (omega arith)).1

pub zero-bit_or : (x : ℕ) → bit_or 0 x ≡ x
zero-bit_or x = bit_or-bitwise 0 x

pub times_two_pow : (q k : ℕ) → q * 2 ^ suc k ≡ q * 2 ^ k * 2
times_two_pow q k = omega (arith, ap (λ (t : ℕ). q * t) (pow-suc 2 k))

-- A field of `k` bits below a multiple of `2 ^ k` is added by `|`.
pub bit_or_field : (k q r : ℕ) → r < 2 ^ k → bit_or (q * 2 ^ k) r ≡ q * 2 ^ k + r
bit_or_field zero q r h =
    let e : r ≡ 0 = omega arith in rw e (omega (arith, bit_or-zero (q * 2 ^ 0)))
bit_or_field (suc k) q r h =
    let d : q * 2 ^ suc k / 2 ≡ q * 2 ^ k = omega (arith, times_two_pow q k) in
    let m : q * 2 ^ suc k % 2 ≡ 0 = omega (arith, times_two_pow q k) in
    let p : r / 2 < 2 ^ k = omega (arith, pow-suc 2 k) in
    let ih : bit_or (q * 2 ^ suc k / 2) (r / 2) ≡ q * 2 ^ k + r / 2 =
      rw d (bit_or_field k q (r / 2) p) in
    omega (arith, bit_or_halves (q * 2 ^ suc k) r, times_two_pow q k)

pub low_mask_split : (k a : ℕ) → a % 2 ^ suc k ≡ (a / 2) % 2 ^ k * 2 + a % 2
low_mask_split k a =
    let e : a / 2 / 2 ^ k ≡ a / 2 ^ suc k =
      div-div-eq-div-mul a 2 (2 ^ k) ∙ ap (λ (t : ℕ). a / t) (omega (arith, pow-suc 2 k)) in
    omega (
      arith,
      div-add-mod' a (2 ^ suc k),
      div-add-mod' (a / 2) (2 ^ k),
      ap (λ (t : ℕ). t * 2 ^ k) e,
      times_two_pow (a / 2 ^ suc k) k,
    )

-- `& (2 ^ k - 1)` keeps the remainder by `2 ^ k`.
pub bit_and_low : (k a : ℕ) → bit_and a (2 ^ k - 1) ≡ a % 2 ^ k
bit_and_low zero a = omega (arith, bit_and-zero a)
bit_and_low (suc k) a =
    let d : (2 ^ suc k - 1) / 2 ≡ 2 ^ k - 1 = omega (arith, pow-suc 2 k, one-le-pow k 2) in
    let ih : bit_and (a / 2) ((2 ^ suc k - 1) / 2) ≡ a / 2 % 2 ^ k = rw d (bit_and_low k (a / 2)) in
    omega (arith, bit_and_halves a (2 ^ suc k - 1), low_mask_split k a, pow-suc 2 k, one-le-pow k 2)

-- Two functions that agree on all values below `n`, checked by evaluation.
module _ (f g : ℕ → ℕ) where
  unfoldable pub agree_below : ℕ → Bool
  agree_below zero = true
  agree_below (suc n) = elim (compare (f n) (g n)) [ Ordering.eq ↦ agree_below n | _ ↦ false ]

  pub agree_below→eq : (n : ℕ) → agree_below n ≡ true → (i : ℕ) → i < n → f i ≡ g i
  unfolding agree_below
  agree_below→eq zero e i h = absurd (omega arith)
  agree_below→eq (suc n) e i h = ground (arith, agree_below→eq n (ground arith) i)

-- The two top bits of a byte.
pub bit_and_top2 : (b : ℕ) → b < 256 → bit_and b 0xC0 ≡ b / 64 * 64
unfolding agree_below
bit_and_top2 = agree_below→eq _ _ 256 refl

-- ===== src/Xform/Crc32/Bitwise.antt =====
-- The register with the table and bit by bit.
use posixutils_rs.Prelude.{
  ℕ, zero, suc, ◌*◌, ◌/◌, ◌%◌, ◌^◌, ◌<◌, ◌≡◌, refl, sym, ap, ◌∙◌, subst, Bool, leb, if◌then◌else◌,
  Option, none, some, Option-cases, inl, inr, get_elem?, bit_and, arith,
}
use native.Mathlib.Nat.{one-le-pow, mul_right_comm, mul-le-mul_left}
use posixutils_rs.Prelude.Bits.{times_two_pow, agree_below, agree_below→eq, bit_and_low}
use posixutils_rs.Prelude.Xor.{
  ◌⊕◌, xor_assoc, xor_comm, xor_zero, xor_double, xor_pow, xor_mod, xor_div, xor-lt, xor_field,
}
use posixutils_rs.Xform.Crc32.{feed}
use posixutils_rs.Xform.Crc32.Table.{crctab}

-- The remainder by the polynomial of POSIX, one bit on.
abbrev pub shift_bit : ℕ → ℕ
shift_bit s = s * 2 % 2 ^ 32 ⊕ (if leb (2 ^ 31) s then 0x04C11DB7 else 0)

abbrev pub shift_bits : ℕ → ℕ → ℕ
shift_bits zero s = s
shift_bits (suc k) s = shift_bits k (shift_bit s)

-- A byte goes in at the top, and eight bits go through.
abbrev pub shift_byte : ℕ → ℕ → ℕ
shift_byte s b = shift_bits 8 (s ⊕ b * 2 ^ 24)

abbrev entry_or : Option ℕ → ℕ
entry_or none = 2 ^ 32
entry_or (some e) = e

crctab-shift_bits : (i : ℕ) → i < 256 → shift_bits 8 (i * 2 ^ 24) ≡ entry_or (get_elem? crctab i)
unfolding agree_below
crctab-shift_bits =
    agree_below→eq (λ i. shift_bits 8 (i * 2 ^ 24)) (λ i. entry_or (get_elem? crctab i)) 256 refl

top_bit : (a b : ℕ) → b < 2 ^ 31 → leb (2 ^ 31) (a ⊕ b) ≡ leb (2 ^ 31) a
top_bit a b h =
    let d : b / 2 ^ 31 ≡ 0 = omega arith in
    let e : (a ⊕ b) / 2 ^ 31 ≡ a / 2 ^ 31 =
      xor_div 31 a b ∙ ap (λ t. a / 2 ^ 31 ⊕ t) d ∙ xor_zero (a / 2 ^ 31) in
    ground arith

double_mod : (t : ℕ) → t * 2 % 2 ^ 32 ≡ t % 2 ^ 31 * 2
double_mod t = omega arith

other_bits : (a b : ℕ) → b < 2 ^ 31 → (a ⊕ b) * 2 % 2 ^ 32 ≡ a * 2 % 2 ^ 32 ⊕ b * 2
other_bits a b h =
    let d : b % 2 ^ 31 ≡ b = omega arith in
    double_mod (a ⊕ b)
    ∙ ap (λ t. t * 2) (xor_mod 31 a b ∙ ap (λ t. a % 2 ^ 31 ⊕ t) d)
    ∙ sym (xor_double (a % 2 ^ 31) b)
    ∙ ap (λ t. t ⊕ b * 2) (sym (double_mod a))

xor_swap : (x y z : ℕ) → x ⊕ y ⊕ z ≡ x ⊕ z ⊕ y
xor_swap x y z = xor_assoc x y z ∙ ap (λ t. x ⊕ t) (xor_comm y z) ∙ sym (xor_assoc x z y)

-- What is below the top bit is shifted along.
shift_bit-xor : (a b : ℕ) → b < 2 ^ 31 → shift_bit (a ⊕ b) ≡ shift_bit a ⊕ b * 2
shift_bit-xor a b h =
    ap (λ t. t ⊕ (if leb (2 ^ 31) (a ⊕ b) then 0x04C11DB7 else 0)) (other_bits a b h)
    ∙ ap (λ (c : Bool). a * 2 % 2 ^ 32 ⊕ b * 2 ⊕ (if c then 0x04C11DB7 else 0)) (top_bit a b h)
    ∙ xor_swap (a * 2 % 2 ^ 32) (b * 2) (if leb (2 ^ 31) a then 0x04C11DB7 else 0)

shift_bits-xor :
    (k a b : ℕ) → b * 2 ^ k < 2 ^ 32 → shift_bits k (a ⊕ b) ≡ shift_bits k a ⊕ b * 2 ^ k
shift_bits-xor zero a b h = ap (λ t. a ⊕ t) (omega arith)
shift_bits-xor (suc k) a b h =
    let e : b * 2 ^ suc k ≡ b * 2 * 2 ^ k =
      omega (arith, times_two_pow b k, mul_right_comm b (2 ^ k) 2) in
    let small : b < 2 ^ 31 =
      omega (arith, one-le-pow k 2, e, mul-le-mul_left (b * 2) (one-le-pow k 2 (omega arith))) in
    ap (shift_bits k) (shift_bit-xor a b small)
    ∙ shift_bits-xor k (shift_bit a) (b * 2) (subst (λ t. t < 2 ^ 32) e h)
    ∙ ap (λ t. shift_bits k (shift_bit a) ⊕ t) (sym e)

shift_bit-lt : (s : ℕ) → shift_bit s < 2 ^ 32
shift_bit-lt s =
    xor-lt 32 (s * 2 % 2 ^ 32) (if leb (2 ^ 31) s then 0x04C11DB7 else 0) (omega arith)
      (ground arith)

pub shift_byte-lt : (s b : ℕ) → shift_byte s b < 2 ^ 32
shift_byte-lt s b = shift_bit-lt _

-- The register behind a byte, from its top byte and the others.
register : (s c : ℕ) → s < 2 ^ 32 → s ⊕ c * 2 ^ 24 ≡ (s / 2 ^ 24 ⊕ c) * 2 ^ 24 ⊕ s % 2 ^ 24
register s c h =
    let whole : s ≡ s / 2 ^ 24 * 2 ^ 24 ⊕ s % 2 ^ 24 =
      sym (xor_field 24 (s / 2 ^ 24) (s % 2 ^ 24) (omega arith) ∙ omega arith) in
    ap (λ t. t ⊕ c * 2 ^ 24) whole
    ∙ xor_swap (s / 2 ^ 24 * 2 ^ 24) (s % 2 ^ 24) (c * 2 ^ 24)
    ∙ ap (λ t. t ⊕ s % 2 ^ 24) (xor_pow 24 (s / 2 ^ 24) c)

-- A step with the table is eight steps without: it does not panic on a register of 32 bits and a byte.
pub feed-shift_byte : (s c : ℕ) → s < 2 ^ 32 → c < 256 → feed s c ≡ some (shift_byte s c)
unfolding feed
feed-shift_byte s c h h' =
    let i = s / 2 ^ 24 ⊕ c in
    let small : i < 256 = xor-lt 8 (s / 2 ^ 24) c (omega arith) h' in
    let index : bit_and i 0xff ≡ i = bit_and_low 8 i ∙ omega arith in
    let low : s * 2 ^ 8 % 2 ^ 32 ≡ s % 2 ^ 24 * 2 ^ 8 = omega arith in
    let bits : shift_byte s c ≡ shift_bits 8 (i * 2 ^ 24) ⊕ s % 2 ^ 24 * 2 ^ 8 =
      ap (shift_bits 8) (register s c h)
      ∙ shift_bits-xor 8 (i * 2 ^ 24) (s % 2 ^ 24) (omega arith) in
    elim (Option-cases (get_elem? crctab i)) [
      | inl e ↦
          let over : shift_bits 8 (i * 2 ^ 24) ≡ 2 ^ 32 =
            crctab-shift_bits i small ∙ ap entry_or e in
          let under : shift_bits 8 (i * 2 ^ 24) < 2 ^ 32 = shift_bit-lt _ in absurd (omega arith)
      | inr (entry, e) ↦ rw index (
          rw e (
            ap some (
              xor_comm (s * 2 ^ 8 % 2 ^ 32) entry
              ∙ sym (
                  bits
                  ∙ ap (λ t. t ⊕ s % 2 ^ 24 * 2 ^ 8) (crctab-shift_bits i small ∙ ap entry_or e)
                  ∙ ap (λ t. entry ⊕ t) (sym low)))))
    ]

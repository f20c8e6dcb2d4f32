-- ===== src/Awk/Format/Digits.antt =====
-- The digits of a number and the buffer that they are written in.
use posixutils_rs.Prelude.{
  ℕ, zero, suc, ◌+◌, ◌-◌, ◌*◌, ◌/◌, ◌%◌, ◌^◌, ◌<◌, ◌≤◌, ◌≡◌, ◌≢◌, refl, sym, ap, ◌∙◌, subst, [],
  ◌∷◌, ◌++◌, append_assoc, true, false, Bool-cases, Option-cases, inl, inr, ◌⊎◌, Bool, ltb, leb,
  ◌==◌, ==_iff, if◌then◌else◌, Option, none, some, length, get_elem?, length-append, All,
  All-append, arith,
}
use native.Mathlib.Nat.{
  div-add-mod', pow-zero, pow-suc, mod-lt, div-lt_iff_lt-mul, mul-le-mul_right,
}
use posixutils_rs.Prelude.Bits.{agree_below, agree_below→eq}
use posixutils_rs.Std.Strings.{Str}
use posixutils_rs.Awk.Format.{IntegerFormat, base_of, digits_of, number_to_digits}

-- What a digit stands for.
abbrev pub digit_value : ℕ → ℕ
digit_value c = if leb c b'9' then c - b'0' else if leb c b'F' then c - 55 else c - 87

-- The number that `digits` go on with behind `n`.
unfoldable pub read_from : ℕ → ℕ → Str → ℕ
read_from base n [] = n
read_from base n (c ∷ digits) = read_from base (n * base + digit_value c) digits

abbrev pub read : ℕ → Str → ℕ
read base digits = read_from base 0 digits

read_from-snoc :
    (base n c : ℕ) (digits : Str)
    → read_from base n (digits ++ c ∷ []) ≡ read_from base n digits * base + digit_value c
unfolding read_from
read_from-snoc base n c [] = refl
read_from-snoc base n c (d ∷ digits) = read_from-snoc base (n * base + digit_value d) c digits

-- The digit for `d`, with a letter of either case from ten on.
abbrev pub numeral : Bool → ℕ → ℕ
numeral upper d = if ltb d 10 then b'0' + d else if upper then b'A' + (d - 10) else b'a' + (d - 10)

abbrev pub base_for : IntegerFormat → ℕ
base_for IntegerFormat.decimal = 10
base_for IntegerFormat.octal = 8
base_for IntegerFormat.hex_lower = 16
base_for IntegerFormat.hex_upper = 16

abbrev pub is_upper : IntegerFormat → Bool
is_upper IntegerFormat.hex_upper = true
is_upper _ = false

pub base_of-base_for : (format : IntegerFormat) → base_of format ≡ base_for format
base_of-base_for IntegerFormat.decimal = refl
base_of-base_for IntegerFormat.octal = refl
base_of-base_for IntegerFormat.hex_lower = refl
base_of-base_for IntegerFormat.hex_upper = refl

abbrev pub IsDigitOf : Bool → ℕ → ℕ → Type 0
IsDigitOf upper base c = (digit_value c < base) × (c ≡ numeral upper (digit_value c))

-- No zero stands in front.
abbrev pub IsShortest : Str → Type 0
IsShortest [] = Unit
IsShortest (c ∷ digits) = digit_value c ≢ 0

abbrev char_at : Option ℕ → ℕ
char_at none = 0
char_at (some c) = c

digits_of-numeral :
    (format : IntegerFormat) (d : ℕ)
    → d < base_of format
    → char_at (get_elem? (digits_of format) d) ≡ numeral (is_upper format) d
unfolding agree_below
digits_of-numeral IntegerFormat.decimal =
    agree_below→eq (λ d. char_at (get_elem? (digits_of IntegerFormat.decimal) d)) (numeral false) 10
      refl
digits_of-numeral IntegerFormat.octal =
    agree_below→eq (λ d. char_at (get_elem? (digits_of IntegerFormat.octal) d)) (numeral false) 8
      refl
digits_of-numeral IntegerFormat.hex_lower =
    agree_below→eq (λ d. char_at (get_elem? (digits_of IntegerFormat.hex_lower) d)) (numeral false)
      16 refl
digits_of-numeral IntegerFormat.hex_upper =
    agree_below→eq (λ d. char_at (get_elem? (digits_of IntegerFormat.hex_upper) d)) (numeral true)
      16 refl

digit_value-numeral : (upper : Bool) (d : ℕ) → d < 16 → digit_value (numeral upper d) ≡ d
unfolding agree_below
digit_value-numeral true = agree_below→eq (λ d. digit_value (numeral true d)) (λ d. d) 16 refl
digit_value-numeral false = agree_below→eq (λ d. digit_value (numeral false d)) (λ d. d) 16 refl

numeral-positive : (upper : Bool) (d : ℕ) → 0 < numeral upper d
numeral-positive upper d = ground arith

base-bounds : (format : IntegerFormat) → (2 ≤ base_of format) × (base_of format ≤ 16)
base-bounds IntegerFormat.decimal = (omega arith, omega arith)
base-bounds IntegerFormat.octal = (omega arith, omega arith)
base-bounds IntegerFormat.hex_lower = (omega arith, omega arith)
base-bounds IntegerFormat.hex_upper = (omega arith, omega arith)

digit_at :
    (format : IntegerFormat) (d : ℕ)
    → d < base_of format
    → (c : ℕ) × ((get_elem? (digits_of format) d ≡ some c)
        × (digit_value c ≡ d)
        × (c ≡ numeral (is_upper format) (digit_value c)))
digit_at format d h = elim (Option-cases (get_elem? (digits_of format) d)) [
  | inl e ↦
      let agree = sym (ap char_at e) ∙ digits_of-numeral format d h in
      absurd (omega (arith, numeral-positive (is_upper format) d))
  | inr (c, e) ↦
      let agree : c ≡ numeral (is_upper format) d =
        sym (ap char_at e) ∙ digits_of-numeral format d h in
      let bound : d < 16 = omega (arith, base-bounds format) in
      let value : digit_value c ≡ d =
        ap digit_value agree ∙ digit_value-numeral (is_upper format) d bound in
      (c, (e, value, agree ∙ ap (numeral (is_upper format)) (sym value)))
]

-- The digits `ds` of `value`.
abbrev pub AreDigits : Bool → ℕ → ℕ → Str → Type 0
AreDigits upper base value ds =
    (read base ds ≡ value) × All (IsDigitOf upper base) ds × IsShortest ds

-- As many digits as the value needs at the base.
abbrev pub IsSized : ℕ → ℕ → Str → Type 0
IsSized base value ds =
    (value < base ^ length ds) × ((length ds ≡ 0) ⊎ (base ^ length ds ≤ value * base))

one-le_of_ne-zero : (n : ℕ) → n ≢ 0 → 1 ≤ n
one-le_of_ne-zero zero h = absurd (h refl)
one-le_of_ne-zero (suc n) h = omega arith

IsSized-snoc :
    (base value c : ℕ) (ds : Str)
    → 0 < base
    → value ≢ 0
    → IsSized base (value / base) ds
    → IsSized base value (ds ++ c ∷ [])
IsSized-snoc base value c ds pos h (less, more) =
    let size : length (ds ++ c ∷ []) ≡ suc (length ds) = omega (arith, length-append ds (c ∷ [])) in
    let below : value < base ^ suc (length ds) =
      subst (λ t. value < t) (sym (pow-suc base (length ds))) ((div-lt_iff_lt-mul pos).0 less) in
    let front : base ^ length ds ≤ value = elim more [
      | inl e ↦
          let one : base ^ length ds ≡ 1 = ap (λ k. base ^ k) e ∙ pow-zero base in
          let some_value : 1 ≤ value = one-le_of_ne-zero value h in omega (arith, one)
      | inr l ↦ omega (arith, l, div-add-mod' value base)
    ] in
    let above : base ^ suc (length ds) ≤ value * base =
      subst (λ t. t ≤ value * base) (sym (pow-suc base (length ds)))
        (mul-le-mul_right base front) in
    (
      subst (λ k. value < base ^ k) (sym size) below,
      inr (subst (λ k. base ^ k ≤ value * base) (sym size) above),
    )

IsShortest-snoc :
    (base c : ℕ) (ds : Str)
    → IsShortest ds
    → (read base ds ≡ 0 → digit_value c ≢ 0)
    → IsShortest (ds ++ c ∷ [])
unfolding read_from
IsShortest-snoc base c [] h k = k refl
IsShortest-snoc base c (d ∷ ds) h k = h

AreDigits-snoc :
    (upper : Bool) (base value c : ℕ) (ds : Str)
    → value ≢ 0
    → c ≡ numeral upper (digit_value c)
    → digit_value c ≡ value % base
    → value % base < base
    → AreDigits upper base (value / base) ds
    → AreDigits upper base value (ds ++ c ∷ [])
AreDigits-snoc upper base value c ds h l e b (r, all, short) =
    let whole = div-add-mod' value base in
    let q : read base ds * base ≡ value / base * base = ap (λ t. t * base) r in
    (
      omega (arith, read_from-snoc base 0 c ds),
      All-append _ ds (c ∷ []) all ((subst (λ t. t < base) (sym e) b, l), tt),
      IsShortest-snoc base c ds short (λ none. λ last. h (
          let w : 0 * base ≡ 0 = omega arith in
          let z : value / base * base ≡ 0 = ap (λ t. t * base) (sym r ∙ none) ∙ w in omega arith)),
    )

module _ (format : IntegerFormat) where
  abbrev Digits : ℕ → ℕ → Str → Type 0
  Digits index value written =
      (ds : Str) × ((number_to_digits index value (base_of format) (digits_of format) written
          ≡ some (ds ++ written))
        × AreDigits (is_upper format) (base_of format) value ds
        × IsSized (base_of format) value ds)

  end_step :
      (index value : ℕ) (written : Str)
      → (value == 0) ≡ true
      → number_to_digits index value (base_of format) (digits_of format) written ≡ some written
  unfolding number_to_digits
  end_step zero value written e = rw e refl
  end_step (suc index) value written e = rw e refl

  digit_step :
      (index value c : ℕ) (written : Str)
      → (value == 0) ≡ false
      → get_elem? (digits_of format) (value % base_of format) ≡ some c
      → number_to_digits (suc index) value (base_of format) (digits_of format) written
        ≡ number_to_digits index
            (value / base_of format)
            (base_of format)
            (digits_of format)
            (c ∷ written)
  unfolding number_to_digits
  digit_step index value c written e e' = rw e (rw e' refl)

  nothing_left :
      (index value : ℕ) (written : Str) → (value == 0) ≡ true → Digits index value written
  unfolding read_from
  nothing_left index value written e =
      let zero_value = (==_iff value 0).0 e in
      (
        [],
        (
          end_step index value written e,
          (sym zero_value, tt, tt),
          (rw zero_value (omega (arith, pow-zero (base_of format))), inl refl),
        ),
      )

  -- A number that has at most `index` digits is written in the buffer before `index`.
  pub number_to_digits_lem :
      (index value : ℕ) (written : Str)
      → value < base_of format ^ index
      → Digits index value written
  number_to_digits_lem zero value written h = nothing_left zero value written (ground arith)
  number_to_digits_lem (suc index) value written h = elim (Bool-cases (value == 0)) [
    | inl e ↦ nothing_left (suc index) value written e
    | inr e ↦
        let base = base_of format in
        let pos : 0 < base = omega (arith, base-bounds format) in
        let small : value % base < base = mod-lt value pos in
        let (c, (e', v, l)) = digit_at format (value % base) small in
        let less : value / base < base ^ index =
          (div-lt_iff_lt-mul pos).1 (subst (λ t. value < t) (pow-suc base index) h) in
        let (ds, (run, digits, sized)) =
          number_to_digits_lem index (value / base) (c ∷ written) less in
        (
          ds ++ c ∷ [],
          (
            digit_step index value c written e e'
                ∙ run
                ∙ ap some (sym (append_assoc ds (c ∷ []) written)),
            AreDigits-snoc (is_upper format) base value c ds (λ z. ground arith) l v small digits,
            IsSized-snoc base value c ds pos (λ z. ground arith) sized,
          ),
        )
  ]

-- ===== src/Awk/Format/Asked.antt =====
-- What POSIX asks of the flags and the precision of an integer, and that the choices of the code agree with it.
use posixutils_rs.Prelude.{
  ℕ, zero, suc, ◌+◌, ◌*◌, ◌^◌, ◌<◌, ◌≤◌, ◌≡◌, ◌≢◌, ◌⊎◌, inl, inr, refl, subst, ◌∙◌, [], ◌∷◌, Bool,
  true, false, not, ltb, if◌then◌else◌, Option, none, some, length, arith, ◌&&◌,
}
use Prim.Native.Nat.{max}
use posixutils_rs.Std.Strings.{Str}
use posixutils_rs.Std.Integers.{ℤ, pos, negsuc, is_negative}
use posixutils_rs.Awk.Format.{
  FormatArgs, IntegerFormat, integer_hex_prefix_str, sign_str, unwrap_or, is_none, is_octal,
  unsigned_precision,
}
use posixutils_rs.Awk.Format.Digits.{IsSized, base_for}

-- What POSIX asks for. One digit at least, if no precision is given.
abbrev pub asked_digits : Option ℕ → ℕ
asked_digits none = 1
asked_digits (some p) = p

-- The flag `0`, which a precision and the flag `-` override.
abbrev pub fills_zeros : Bool → Option ℕ → Bool → Bool
fills_zeros true precision zero_padded = false
fills_zeros false none zero_padded = zero_padded
fills_zeros false (some p) zero_padded = false

abbrev pub fills : FormatArgs → Bool
fills args = fills_zeros args.left_justified args.precision args.zero_padded

-- With `#`, an octal number of `count` digits has a zero in front.
abbrev pub least_digits : IntegerFormat → FormatArgs → ℕ → ℕ
least_digits IntegerFormat.octal args count =
    if args.alternative_form
    then max (asked_digits args.precision) (count + 1)
    else asked_digits args.precision
least_digits _ args count = asked_digits args.precision

-- With `#`, a hexadecimal number that is not 0 has a prefix.
abbrev pub hex_prefix : IntegerFormat → Bool → ℕ → Str
hex_prefix IntegerFormat.hex_lower true (suc n) = b'0' ∷ b'x' ∷ []
hex_prefix IntegerFormat.hex_upper true (suc n) = b'0' ∷ b'X' ∷ []
hex_prefix _ _ _ = []

-- The values that the flag `#` serves: octal numbers that do not have just as many digits as are asked for, and
-- hexadecimal numbers that are not 0.
abbrev pub Serves : IntegerFormat → FormatArgs → ℕ → Type 0
Serves IntegerFormat.decimal args value = Unit
Serves IntegerFormat.octal args value =
    let p = asked_digits args.precision in
    (args.alternative_form ≡ false) ⊎ (8 ^ p ≤ value) ⊎ ((1 ≤ p) × (value * 8 < 8 ^ p))
Serves IntegerFormat.hex_lower args value = (args.alternative_form ≡ false) ⊎ (value ≢ 0)
Serves IntegerFormat.hex_upper args value = (args.alternative_form ≡ false) ⊎ (value ≢ 0)

pub unwrap_or-asked_digits : (o : Option ℕ) → unwrap_or o 1 ≡ asked_digits o
unwrap_or-asked_digits none = refl
unwrap_or-asked_digits (some p) = refl

pub unsigned_fills :
    (left : Bool) (precision : Option ℕ) (zero_padded : Bool)
    → (not left && (is_none precision && zero_padded)) ≡ fills_zeros left precision zero_padded
unsigned_fills true precision zero_padded = refl
unsigned_fills false none zero_padded = refl
unsigned_fills false (some p) zero_padded = refl

lower_prefix :
    (alternative : Bool) (value : ℕ)
    → (alternative ≡ false) ⊎ (value ≢ 0)
    → (if alternative then b'0' ∷ b'x' ∷ [] else [])
      ≡ hex_prefix IntegerFormat.hex_lower alternative value
lower_prefix true zero (inl e) = cc
lower_prefix true zero (inr h) = absurd (h refl)
lower_prefix true (suc n) h = refl
lower_prefix false value h = refl

upper_prefix :
    (alternative : Bool) (value : ℕ)
    → (alternative ≡ false) ⊎ (value ≢ 0)
    → (if alternative then b'0' ∷ b'X' ∷ [] else [])
      ≡ hex_prefix IntegerFormat.hex_upper alternative value
upper_prefix true zero (inl e) = cc
upper_prefix true zero (inr h) = absurd (h refl)
upper_prefix true (suc n) h = refl
upper_prefix false value h = refl

pub prefix_lem :
    (format : IntegerFormat) (args : FormatArgs) (value : ℕ)
    → Serves format args value
    → integer_hex_prefix_str format args ≡ hex_prefix format args.alternative_form value
prefix_lem IntegerFormat.decimal args value h = refl
prefix_lem IntegerFormat.octal args value h = refl
prefix_lem IntegerFormat.hex_lower args value h = lower_prefix args.alternative_form value h
prefix_lem IntegerFormat.hex_upper args value h = upper_prefix args.alternative_form value h

-- A number does not have `p` digits if it is too large or too small.
apart :
    (count p value : ℕ)
    → count ≡ p
    → (8 ^ p ≤ value) ⊎ ((1 ≤ p) × (value * 8 < 8 ^ p))
    → value < 8 ^ count
    → (count ≡ 0) ⊎ (8 ^ count ≤ value * 8)
    → ⊥
apart count p value e (inl large) less more =
    let less' = subst (λ k. value < 8 ^ k) e less in omega arith
apart count p value e (inr small) less (inl none_at_all) = omega (arith, small.0)
apart count p value e (inr small) less (inr large) =
    let large' = subst (λ k. 8 ^ k ≤ value * 8) e large in omega (arith, small.1)

octal_digits :
    (alternative : Bool) (p count : ℕ)
    → count ≢ p
    → (if alternative && is_octal IntegerFormat.octal && ltb p count then count + 1 else p)
      ≡ (if alternative then max p (count + 1) else p)
octal_digits true p count h = ground (arith, h)
octal_digits false p count h = refl

octal_precision :
    (args : FormatArgs) (value count : ℕ)
    → Serves IntegerFormat.octal args value
    → (value < 8 ^ count) × ((count ≡ 0) ⊎ (8 ^ count ≤ value * 8))
    → unsigned_precision IntegerFormat.octal args count
      ≡ least_digits IntegerFormat.octal args count
octal_precision args value count (inl e) (less, more) =
    rw (e, unwrap_or-asked_digits args.precision) refl
octal_precision args value count (inr h) (less, more) =
    let p = asked_digits args.precision in
    let other : count ≢ p = λ e. apart count p value e h less more in
    rw (unwrap_or-asked_digits args.precision) (octal_digits args.alternative_form p count other)

plain_digits :
    (alternative octal : Bool) (p count : ℕ)
    → octal ≡ false
    → (if alternative && octal && ltb p count then count + 1 else p) ≡ p
plain_digits true octal p count e = rw e refl
plain_digits false octal p count e = refl

plain_precision :
    (format : IntegerFormat) (args : FormatArgs) (count : ℕ)
    → is_octal format ≡ false
    → unsigned_precision format args count ≡ asked_digits args.precision
plain_precision format args count e =
    plain_digits args.alternative_form (is_octal format) (unwrap_or args.precision 1) count e
    ∙ unwrap_or-asked_digits args.precision

pub precision_lem :
    (format : IntegerFormat) (args : FormatArgs) (value : ℕ) (ds : Str)
    → Serves format args value
    → IsSized (base_for format) value ds
    → unsigned_precision format args (length ds) ≡ least_digits format args (length ds)
precision_lem IntegerFormat.decimal args value ds h sized =
    plain_precision IntegerFormat.decimal args (length ds) refl
precision_lem IntegerFormat.octal args value ds h sized =
    octal_precision args value (length ds) h sized
precision_lem IntegerFormat.hex_lower args value ds h sized =
    plain_precision IntegerFormat.hex_lower args (length ds) refl
precision_lem IntegerFormat.hex_upper args value ds h sized =
    plain_precision IntegerFormat.hex_upper args (length ds) refl

-- A sign: that of the number, or what the flags `+` and space ask for, of which `+` comes first.
abbrev pub sign_of : ℤ → FormatArgs → Str
sign_of (negsuc n) args = b'-' ∷ []
sign_of (pos n) args =
    if args.signed then b'+' ∷ [] else if args.prefix_space then b' ' ∷ [] else []

pub sign_lem :
    (value : ℤ) (args : FormatArgs) → sign_str (is_negative value) args ≡ sign_of value args
sign_lem (pos n) args = refl
sign_lem (negsuc n) args = refl

-- The flag 0 is not given, or not overridden by a precision alone.
abbrev pub Obeys : FormatArgs → Type 0
Obeys args = (args.zero_padded ≡ false) ⊎ (args.precision ≡ none) ⊎ (args.left_justified ≡ true)

obeyed :
    (left : Bool) (precision : Option ℕ) (zero_padded : Bool)
    → (zero_padded ≡ false) ⊎ (precision ≡ none) ⊎ (left ≡ true)
    → (not left && zero_padded) ≡ fills_zeros left precision zero_padded
obeyed true precision zero_padded h = refl
obeyed false none zero_padded h = refl
obeyed false (some p) zero_padded (inl e) = e
obeyed false (some p) zero_padded (inr (inl e)) = cc
obeyed false (some p) zero_padded (inr (inr e)) = cc

pub signed_fills :
    (args : FormatArgs) → Obeys args → (not args.left_justified && args.zero_padded) ≡ fills args
signed_fills args h = obeyed args.left_justified args.precision args.zero_padded h

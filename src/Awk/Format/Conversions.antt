-- ===== src/Awk/Format/Conversions.antt =====
-- `fmt_write_unsigned` and `fmt_write_signed`: the digits of the value and their field.
use posixutils_rs.Prelude.{
  ℕ, ◌^◌, ◌<◌, ◌≡◌, ap, subst, ◌∙◌, [], ◌++◌, append-nil, Bool, false, not, Option, some, length,
  arith, ◌&&◌,
}
use posixutils_rs.Std.Strings.{Str}
use posixutils_rs.Std.Integers.{ℤ, pos, negsuc, abs, is_negative, IsI64}
use posixutils_rs.Awk.Format.{
  FormatArgs, IntegerFormat, base_of, integer_hex_prefix_str, sign_str, unwrap_or, is_none,
  unsigned_precision, fmt_write_unsigned, fmt_write_signed,
}
use posixutils_rs.Awk.Format.Digits.{
  AreDigits, IsSized, base_for, is_upper, base_of-base_for, number_to_digits_lem,
}
use posixutils_rs.Awk.Format.Asked.{
  asked_digits, fills, least_digits, hex_prefix, Serves, unwrap_or-asked_digits, unsigned_fills,
  prefix_lem, precision_lem, sign_of, sign_lem, Obeys, signed_fills,
}
use posixutils_rs.Awk.Format.Layout.{IsField, write_padded-IsField}

-- The value is written behind the target, as digits that read as it at `base`, with letters of one case, in a
-- field with this prefix and at least so many digits.
abbrev pub Writes : Str → FormatArgs → Bool → Bool → ℕ → ℕ → Str → (ℕ → ℕ) → Option Str → Type 0
Writes target args fill upper base value prefix least result =
    (ds : Str) × ((out : Str) × ((result ≡ some (target ++ out))
        × AreDigits upper base value ds
        × IsField args fill prefix (least (length ds)) ds out))

fits_buffer : (format : IntegerFormat) (value : ℕ) → value < 2 ^ 64 → value < base_of format ^ 22
fits_buffer IntegerFormat.decimal value h = omega arith
fits_buffer IntegerFormat.octal value h = omega arith
fits_buffer IntegerFormat.hex_lower value h = omega arith
fits_buffer IntegerFormat.hex_upper value h = omega arith

-- `fmt_write_unsigned` does not panic on a `u64`: it writes the digits of the value, which read as it at the base
-- of the format, have letters of the case of the format, and do not start with a zero, in a field of the
-- width of the arguments, on the side that they ask for. In front of the digits are as many zeros as the
-- precision asks for, or, under the flag 0, without the flag `-` and a precision, as fill the field. With `#`,
-- an octal number has a zero in front and a hexadecimal number its prefix; this is shown of octal numbers that
-- do not have just as many digits as the precision, or 1, says, and of hexadecimal numbers that are not 0.
pub fmt_write_unsigned-Writes :
    (target : Str) (value : ℕ) (format : IntegerFormat) (args : FormatArgs)
    → value < 2 ^ 64
    → Serves format args value
    → Writes target args
        (fills args)
        (is_upper format)
        (base_for format)
        value
        (hex_prefix format args.alternative_form value)
        (least_digits format args)
        (fmt_write_unsigned target value format args)
unfolding fmt_write_unsigned
fmt_write_unsigned-Writes target value format args h serves =
    let (ds, (e, digits, sized)) =
      number_to_digits_lem format 22 value [] (fits_buffer format value h) in
    let prefix = integer_hex_prefix_str format args in
    let zeros = is_none args.precision && args.zero_padded in
    let least =
      precision_lem format args value ds serves
        (subst (λ b. IsSized b value ds) (base_of-base_for format) sized) in
    let (out, (e', field)) =
      write_padded-IsField target args prefix (unsigned_precision format args (length ds)) ds
        zeros in
    (
      ds,
      (
        out,
        (
          rw (e ∙ ap some (append-nil ds)) (ap some e'),
          subst (λ b. AreDigits (is_upper format) b value ds) (base_of-base_for format) digits,
          subst
              (λ f.
                IsField args f (hex_prefix format args.alternative_form value)
                  (least_digits format args (length ds)) ds out)
              (unsigned_fills args.left_justified args.precision args.zero_padded)
              (subst
                (λ (x : Str).
                  IsField args (not args.left_justified && zeros) x
                    (least_digits format args (length ds)) ds out)
                (prefix_lem format args value serves)
                (subst (λ n. IsField args (not args.left_justified && zeros) prefix n ds out) least
                  field)),
        ),
      ),
    )

small : (value : ℤ) → IsI64 value → abs value < 10 ^ 20
small (pos n) h = omega arith
small (negsuc n) h = omega arith

-- `fmt_write_signed` does not panic on an `i64`: it writes the digits of the absolute value, which read as it at
-- base 10 and do not start with a zero, behind the sign, in a field of the width of the arguments, on the side
-- that they ask for. In front of the digits are as many zeros as the precision asks for, or, under the flag 0
-- and without the flag `-`, as fill the field. This is shown where the flag 0 is not given together with a
-- precision and without the flag `-`.
pub fmt_write_signed-Writes :
    (target : Str) (value : ℤ) (args : FormatArgs)
    → IsI64 value
    → Obeys args
    → Writes target args
        (fills args)
        false
        10
        (abs value)
        (sign_of value args)
        (λ count. asked_digits args.precision)
        (fmt_write_signed target value args)
unfolding fmt_write_signed
fmt_write_signed-Writes target value args h obeys =
    let (ds, (e, digits, sized)) =
      number_to_digits_lem IntegerFormat.decimal 20 (abs value) [] (small value h) in
    let (out, (e', field)) =
      write_padded-IsField target args (sign_str (is_negative value) args)
        (unwrap_or args.precision 1) ds args.zero_padded in
    (
      ds,
      (
        out,
        (
          rw (e ∙ ap some (append-nil ds)) (ap some e'),
          digits,
          subst (λ f. IsField args f (sign_of value args) (asked_digits args.precision) ds out)
              (signed_fills args obeys)
              (subst
                (λ (x : Str).
                  IsField args (not args.left_justified && args.zero_padded) x
                    (asked_digits args.precision) ds out)
                (sign_lem value args)
                (subst
                  (λ n.
                    IsField args (not args.left_justified && args.zero_padded)
                      (sign_str (is_negative value) args) n ds out)
                  (unwrap_or-asked_digits args.precision) field)),
        ),
      ),
    )

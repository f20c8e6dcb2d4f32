-- ===== src/Awk/Format.antt =====
-- awk/src/interpreter/format.rs: the arguments of a conversion, integers and strings. A string is the list of its
-- characters, where it is cut at a byte the list of its bytes. `none` is a panic. `localeconv` is an argument.
pub mod Digits
pub mod Layout
pub mod Asked
pub mod Conversions
pub mod Specifiers
pub mod Strings
mod Tests
use posixutils_rs.Prelude.{
  ℕ, zero, suc, ◌+◌, ◌-◌, ◌*◌, ◌/◌, ◌%◌, ◌^◌, List, [], ◌∷◌, ◌++◌, Bool, true, false, not, ◌&&◌,
  ◌||◌, ltb, leb, ◌==◌, if◌then◌else◌, Option, none, some, ◌>>=◌, length, take, get_elem?, drop,
}
use Prim.Native.Nat.{min, max}
use posixutils_rs.Std.Strings.{Str, codes}
use posixutils_rs.Std.Integers.{ℤ, abs, is_negative}

pub record FormatArgs : Type 0 where
  pub left_justified : Bool
  pub signed : Bool
  pub prefix_space : Bool
  pub alternative_form : Bool
  pub zero_padded : Bool
  pub width : ℕ
  pub precision : Option ℕ

abbrev pub default : FormatArgs
default = record {
  left_justified = false;
  signed = false;
  prefix_space = false;
  alternative_form = false;
  zero_padded = false;
  width = 0;
  precision = none;
}

pub data IntegerFormat : Type 0 where
  decimal octal hex_lower hex_upper : IntegerFormat

abbrev pub is_octal : IntegerFormat → Bool
is_octal octal = true
is_octal _ = false

abbrev pub base_of : IntegerFormat → ℕ
base_of decimal = 10
base_of octal = 8
base_of hex_lower = 16
base_of hex_upper = 16

abbrev pub digits_of : IntegerFormat → Str
digits_of decimal = codes "0123456789"
digits_of octal = codes "01234567"
digits_of hex_lower = codes "0123456789abcdef"
digits_of hex_upper = codes "0123456789ABCDEF"

abbrev pub integer_hex_prefix_str : IntegerFormat → FormatArgs → Str
integer_hex_prefix_str hex_lower args = if args.alternative_form then codes "0x" else []
integer_hex_prefix_str hex_upper args = if args.alternative_form then codes "0X" else []
integer_hex_prefix_str _ args = []

abbrev pub sign_str : Bool → FormatArgs → Str
sign_str is_negative args =
    if is_negative
    then codes "-"
    else if args.signed
    then codes "+"
    else if args.prefix_space
    then codes " "
    else []

unfoldable pub pad_target : Str → ℕ → ℕ → Str
pad_target target zero byte = target
pad_target target (suc padding) byte = pad_target (target ++ byte ∷ []) padding byte

-- The digits that are in the buffer from `index` on, where `written` is.
unfoldable pub number_to_digits : ℕ → ℕ → ℕ → Str → Str → Option Str
number_to_digits zero value base digits written = if value == 0 then some written else none
number_to_digits (suc index) value base digits written =
    let rest = get_elem? digits (value % base) >>= λ digit.
    number_to_digits index (value / base) base digits (digit ∷ written) in
    if value == 0 then some written else rest

abbrev pub unwrap_or : Option ℕ → ℕ → ℕ
unwrap_or none d = d
unwrap_or (some n) d = n

abbrev pub is_none : Option ℕ → Bool
is_none none = true
is_none (some _) = false

-- A number of digits `buffer` behind `prefix`, with at least `precision` digits and `width` characters.
unfoldable pub write_padded : Str → FormatArgs → Bool → Str → ℕ → Str → Str
write_padded target args zeros prefix precision buffer =
    let number_length = max (length buffer) precision + length prefix in
    let padding = args.width - number_length in
    if args.left_justified
    then pad_target (pad_target (target ++ prefix) (precision - length buffer) b'0' ++ buffer)
        padding b' '
    else if zeros
    then pad_target (pad_target (target ++ prefix) padding b'0') (precision - length buffer) b'0'
      ++ buffer
    else pad_target (pad_target target padding b' ' ++ prefix) (precision - length buffer) b'0'
      ++ buffer

abbrev pub unsigned_precision : IntegerFormat → FormatArgs → ℕ → ℕ
unsigned_precision format args buffer_length =
    let precision = unwrap_or args.precision 1 in
    if args.alternative_form && is_octal format && ltb precision buffer_length
    then buffer_length + 1
    else precision

-- `u64` has at most 22 digits at base 8, and 20 at base 10.
unfoldable pub fmt_write_unsigned : Str → ℕ → IntegerFormat → FormatArgs → Option Str
fmt_write_unsigned target value format args =
    number_to_digits 22 value (base_of format) (digits_of format) [] >>= λ buffer. some (
      write_padded target args (is_none args.precision && args.zero_padded)
        (integer_hex_prefix_str format args) (unsigned_precision format args (length buffer))
        buffer)

unfoldable pub fmt_write_signed : Str → ℤ → FormatArgs → Option Str
fmt_write_signed target value args =
    number_to_digits 20 (abs value) 10 (codes "0123456789") [] >>= λ buffer. some (
      write_padded target args args.zero_padded (sign_str (is_negative value) args)
        (unwrap_or args.precision 1) buffer)

abbrev pub is_ascii_digit : ℕ → Bool
is_ascii_digit c = leb b'0' c && leb c b'9'

abbrev pub flag : ℕ → FormatArgs → Option FormatArgs
flag c args =
    if c == b'-'
    then some (record args { left_justified = true })
    else if c == b'+'
    then some (record args { signed = true })
    else if c == b' '
    then some (record args { prefix_space = true })
    else if c == b'#'
    then some (record args { alternative_form = true })
    else if c == b'0'
    then some (record args { zero_padded = true })
    else none

-- The loop that reads the flags from the character `next` on, and what `iter` is then; `none` is the error
-- "invalid format string".
unfoldable pub parse_flags : FormatArgs → ℕ → Str → Option (FormatArgs × ℕ × Str)
parse_flags args next [] = elim (flag next args) [
  | none ↦ some (args, next, [])
  | some args' ↦ none
]
parse_flags args next (c ∷ iter) = elim (flag next args) [
  | none ↦ some (args, next, c ∷ iter)
  | some args' ↦ parse_flags args' c iter
]

-- `parse_number`, which wraps around in a release build.
unfoldable pub parse_number : ℕ → ℕ → Str → Option (ℕ × ℕ × Str)
parse_number number next [] = if is_ascii_digit next then none else some (number, next, [])
parse_number number next (c ∷ iter) =
    let rest = parse_number ((number * 10 + (next - b'0')) % 2 ^ 64) c iter in
    if is_ascii_digit next then rest else some (number, next, c ∷ iter)

-- From the decimal point on, of which `iter` holds what is behind it.
abbrev pub parse_precision : Str → Option (ℕ × ℕ × Str)
parse_precision [] = none
parse_precision (c ∷ iter) = parse_number 0 c iter

abbrev pub with_precision : FormatArgs → ℕ × ℕ × Str → ℕ × FormatArgs × Str
with_precision args (n, next, iter) = (next, record args { precision = some n }, iter)

module _ (decimal_point : ℕ) where
  abbrev pub parse_rest : FormatArgs → ℕ × ℕ × Str → Option (ℕ × FormatArgs × Str)
  parse_rest args (width, next, iter) =
      let precise =
        parse_precision iter >>= λ r. some (with_precision (record args { width = width }) r) in
      if next == decimal_point then precise else some (next, record args { width = width }, iter)

  unfoldable pub parse_conversion_specifier_args : Str → Option (ℕ × FormatArgs × Str)
  parse_conversion_specifier_args [] = none
  parse_conversion_specifier_args (c ∷ iter) = parse_flags default c iter >>= λ (args, next, iter).
      parse_number 0 next iter >>= λ r. parse_rest args r

-- A character starts here, or the string ends: no continuation byte of UTF-8 comes next.
abbrev pub starts_char : Str → Bool
starts_char [] = true
starts_char (c ∷ s) = not (leb 0x80 c && ltb c 0xC0)

-- `is_char_boundary` of a string of bytes in UTF-8, at the end or where no continuation byte is.
unfoldable pub is_char_boundary : Str → ℕ → Bool
is_char_boundary s zero = true
is_char_boundary s (suc n) = leb (suc n) (length s) && starts_char (drop (suc n) s)

unfoldable pub fmt_write_string : Str → Str → FormatArgs → Option Str
fmt_write_string target value args =
    let str_len = min (length value) (unwrap_or args.precision (2 ^ 64 - 1)) in
    let padding = args.width - str_len in
    if is_char_boundary value str_len
    then some (
        if args.left_justified
        then pad_target (target ++ take str_len value) padding b' '
        else pad_target target padding b' ' ++ take str_len value)
    else none

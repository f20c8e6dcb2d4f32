-- ===== src/Awk/Format/Tests.antt =====
-- The formats and their theorems at concrete inputs.
use posixutils_rs.Prelude.{
  ◌^◌, ◌<◌, ◌≡◌, ◌≢◌, refl, List, [], ◌∷◌, ◌++◌, map, true, false, inl, inr, none, some, arith,
}
use posixutils_rs.Std.Strings.{Str, codes}
use posixutils_rs.Std.Integers.{negsuc}
use posixutils_rs.Awk.Format.{
  FormatArgs, IntegerFormat, default, pad_target, number_to_digits, write_padded,
  fmt_write_unsigned, fmt_write_signed, fmt_write_string, is_char_boundary,
  parse_conversion_specifier_args, parse_flags, parse_number,
}
use posixutils_rs.Awk.Format.Digits.{read, read_from}
use posixutils_rs.Awk.Format.Conversions.{
  Writes, fmt_write_unsigned-Writes, fmt_write_signed-Writes,
}
use posixutils_rs.Awk.Format.Specifiers.{
  Flag, flag_char, set_flags, precision_text, precision_value, parse_conversion_specifier_args_lem,
}
use posixutils_rs.Awk.Format.Strings.{IsStringField, fmt_write_string-IsStringField}

abbrev alternative : FormatArgs
alternative = record default { alternative_form = true; width = 6 }

abbrev precise : FormatArgs
precise = record default { zero_padded = true; width = 6; precision = some 2 }

hex_test :
    fmt_write_unsigned (codes ">") 255 IntegerFormat.hex_lower alternative ≡ some (codes ">  0xff")
unfolding fmt_write_unsigned number_to_digits write_padded pad_target
hex_test = refl

-- No zero comes first at one digit.
octal_test : fmt_write_unsigned [] 5 IntegerFormat.octal alternative ≡ some (codes "     5")
unfolding fmt_write_unsigned number_to_digits write_padded pad_target
octal_test = refl

-- Zeros although a precision is given.
signed_test : fmt_write_signed [] (negsuc 4) precise ≡ some (codes "-00005")
unfolding fmt_write_signed number_to_digits write_padded pad_target
signed_test = refl

fmt_write_unsigned-Writes_example :
    Writes
      (codes ">")
      alternative
      false
      false
      16
      255
      (codes "0x")
      (λ count. 1)
      (fmt_write_unsigned (codes ">") 255 IntegerFormat.hex_lower alternative)
fmt_write_unsigned-Writes_example =
    fmt_write_unsigned-Writes (codes ">") 255 IntegerFormat.hex_lower alternative (omega arith)
      (inr λ e. omega arith)

abbrev zeros : FormatArgs
zeros = record default { zero_padded = true; width = 6 }

fmt_write_signed-Writes_example :
    Writes [] zeros true false 10 5 (codes "-") (λ count. 1) (fmt_write_signed [] (negsuc 4) zeros)
fmt_write_signed-Writes_example =
    fmt_write_signed-Writes [] (negsuc 4) zeros (omega arith, omega arith) (inr (inl refl))

fmt_write_string-IsStringField_example :
    (out : Str) × ((fmt_write_string (codes ">") (codes "abc") precise ≡ some (codes ">" ++ out))
      × IsStringField precise (codes "abc") out)
fmt_write_string-IsStringField_example =
    fmt_write_string-IsStringField (codes ">") (codes "abc") precise
      (omega arith, (omega arith, (omega arith, tt)))

-- A precision inside of a character.
string_test : fmt_write_string [] (0xC3 ∷ 0xA9 ∷ []) (record default { precision = some 1 }) ≡ none
unfolding fmt_write_string is_char_boundary
string_test = refl

point-flagless : (f : Flag) → 46 ≢ flag_char f
point-flagless Flag.minus = λ e. omega arith
point-flagless Flag.plus = λ e. omega arith
point-flagless Flag.space = λ e. omega arith
point-flagless Flag.hash = λ e. omega arith
point-flagless Flag.zero_flag = λ e. omega arith

letter-flagless : (f : Flag) → 100 ≢ flag_char f
letter-flagless Flag.minus = λ e. omega arith
letter-flagless Flag.plus = λ e. omega arith
letter-flagless Flag.space = λ e. omega arith
letter-flagless Flag.hash = λ e. omega arith
letter-flagless Flag.zero_flag = λ e. omega arith

abbrev flags : List Flag
flags = Flag.zero_flag ∷ Flag.minus ∷ []

small : read 10 (codes "12") < 2 ^ 64
unfolding read_from
small = omega arith

precision_small : read 10 (codes "5") < 2 ^ 64
unfolding read_from
precision_small = omega arith

parse_conversion_specifier_args_lem_example :
    parse_conversion_specifier_args 46
      (map flag_char flags ++ (codes "12" ++ precision_text 46 (some (codes "5")) (codes "d!")))
    ≡ some (
      100,
      record (set_flags flags default) {
        width = read 10 (codes "12");
        precision = precision_value 46 (some (codes "5"));
      },
      codes "!",
    )
parse_conversion_specifier_args_lem_example =
    parse_conversion_specifier_args_lem 46 flags (codes "12") (some (codes "5")) 100 (codes "!")
      ((λ e. omega arith), (refl, (refl, tt))) small ((refl, tt), precision_small)
      (refl, point-flagless) (refl, letter-flagless) (λ e. omega arith)

specifier_test :
    parse_conversion_specifier_args 46 (codes "0-12.5d!")
    ≡ some (
      100,
      record default { zero_padded = true; left_justified = true; width = 12; precision = some 5 },
      codes "!",
    )
unfolding parse_conversion_specifier_args parse_flags parse_number
specifier_test = refl

-- ===== src/Awk/Format/Strings.antt =====
-- `fmt_write_string`: the field of a string.
use posixutils_rs.Prelude.{
  ℕ, zero, suc, ◌+◌, ◌-◌, ◌^◌, ◌<◌, ◌≤◌, ◌≡◌, refl, sym, ap, ◌∙◌, [], ◌∷◌, ◌++◌, append-nil,
  append_assoc, true, Bool-cases, inl, inr, if◌then◌else◌, le→leb, some, length, take, drop,
  length-append, length-take, All, arith,
}
use Prim.Native.Nat.{min, max}
use posixutils_rs.Std.Strings.{Str}
use posixutils_rs.Std.Chunks.{All-drop}
use posixutils_rs.Awk.Format.{
  FormatArgs, pad_target, unwrap_or, starts_char, is_char_boundary, fmt_write_string,
}
use posixutils_rs.Awk.Format.Layout.{repeat, length-repeat, pad_target-repeat}

abbrev pub IsAscii : Str → Type 0
IsAscii s = All (λ c. c < 0x80) s

starts_char-IsAscii : (s : Str) → IsAscii s → starts_char s ≡ true
starts_char-IsAscii [] h = refl
starts_char-IsAscii (c ∷ s) (h, _) = ground arith

is_char_boundary-IsAscii :
    (s : Str) (n : ℕ) → IsAscii s → n ≤ length s → is_char_boundary s n ≡ true
unfolding is_char_boundary
is_char_boundary-IsAscii s zero h b = refl
is_char_boundary-IsAscii s (suc n) h b =
    rw (le→leb (suc n) (length s) b)
      (starts_char-IsAscii (drop (suc n) s) (All-drop (λ c. c < 0x80) (suc n) s h))

-- How much of `value` is written: `precision` bytes at most.
abbrev pub str_len : Str → FormatArgs → ℕ
str_len value args = min (length value) (unwrap_or args.precision (2 ^ 64 - 1))

abbrev pub IsStringField : FormatArgs → Str → Str → Type 0
IsStringField args value out =
    (left : ℕ) × ((right : ℕ) × ((out
          ≡ repeat left b' ' ++ take (str_len value args) value ++ repeat right b' ')
        × ((if args.left_justified then left else right) ≡ 0)
        × (length out ≡ max args.width (str_len value args))))

length-string :
    (left right n : ℕ) (value : Str)
    → length (repeat left b' ' ++ take n value ++ repeat right b' ')
      ≡ left + min n (length value) + right
length-string left right n value = omega (
  arith,
  length-append (repeat left b' ' ++ take n value) (repeat right b' '),
  length-append (repeat left b' ') (take n value),
  length-repeat left b' ',
  length-repeat right b' ',
  length-take n value,
)

module _ (target value : Str) (args : FormatArgs) (h : IsAscii value) where
  abbrev beginning : Str
  beginning = take (str_len value args) value

  written :
      fmt_write_string target value args
      ≡ some (
          if args.left_justified
          then pad_target (target ++ beginning) (args.width - str_len value args) b' '
          else pad_target target (args.width - str_len value args) b' ' ++ beginning)
  unfolding fmt_write_string
  written = rw (is_char_boundary-IsAscii value (str_len value args) h (omega arith)) refl

  -- On ASCII, `fmt_write_string` does not panic: it writes the first `precision` bytes of the string, or all if
  -- it has no more or no precision is given, and blanks up to the width on the side that the arguments ask for.
  pub fmt_write_string-IsStringField :
      (out : Str) × ((fmt_write_string target value args ≡ some (target ++ out))
        × IsStringField args value out)
  fmt_write_string-IsStringField =
      let padding = args.width - str_len value args in
      elim (Bool-cases args.left_justified) [
        | inl e ↦ (
          beginning ++ repeat padding b' ',
          (
            written
                ∙ rw e (
                    ap some (
                      pad_target-repeat (target ++ beginning) padding b' '
                      ∙ append_assoc target beginning (repeat padding b' '))),
            (
              0,
              (
                padding,
                (refl, rw e refl, length-string 0 padding (str_len value args) value ∙ omega arith),
              ),
            ),
          ),
        )
        | inr e ↦ (
          repeat padding b' ' ++ beginning ++ [],
          (
            written
                ∙ rw e (
                    ap some (
                      ap (λ l. l ++ beginning) (pad_target-repeat target padding b' ')
                      ∙ append_assoc target (repeat padding b' ') beginning
                      ∙ ap (λ l. target ++ l) (sym (append-nil _)))),
            (
              padding,
              (
                0,
                (refl, rw e refl, length-string padding 0 (str_len value args) value ∙ omega arith),
              ),
            ),
          ),
        )
      ]

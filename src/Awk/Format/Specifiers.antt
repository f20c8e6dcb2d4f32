-- ===== src/Awk/Format/Specifiers.antt =====
-- `parse_conversion_specifier_args`: flags, a width and a precision as they are written.
use posixutils_rs.Prelude.{
  ℕ, ◌+◌, ◌-◌, ◌*◌, ◌%◌, ◌^◌, ◌<◌, ◌≤◌, ◌≡◌, ◌≢◌, refl, ap, ◌∙◌, List, [], ◌∷◌, ◌++◌, map, true,
  false, ◌==◌, Option, none, some, ◌>>=◌, All, arith,
}
use posixutils_rs.Std.Strings.{Str}
use posixutils_rs.Awk.Format.{
  FormatArgs, default, flag, is_ascii_digit, parse_flags, parse_number, parse_precision,
  with_precision, parse_rest, parse_conversion_specifier_args,
}
use posixutils_rs.Awk.Format.Digits.{digit_value, read, read_from}

pub data Flag : Type 0 where
  minus plus space hash zero_flag : Flag

abbrev pub flag_char : Flag → ℕ
flag_char Flag.minus = b'-'
flag_char Flag.plus = b'+'
flag_char Flag.space = b' '
flag_char Flag.hash = b'#'
flag_char Flag.zero_flag = b'0'

abbrev pub set_flag : Flag → FormatArgs → FormatArgs
set_flag Flag.minus args = record args { left_justified = true }
set_flag Flag.plus args = record args { signed = true }
set_flag Flag.space args = record args { prefix_space = true }
set_flag Flag.hash args = record args { alternative_form = true }
set_flag Flag.zero_flag args = record args { zero_padded = true }

-- The arguments with these flags.
abbrev pub set_flags : List Flag → FormatArgs → FormatArgs
set_flags [] args = args
set_flags (f ∷ flags) args = set_flags flags (set_flag f args)

flag-flag_char : (f : Flag) (args : FormatArgs) → flag (flag_char f) args ≡ some (set_flag f args)
flag-flag_char Flag.minus args = refl
flag-flag_char Flag.plus args = refl
flag-flag_char Flag.space args = refl
flag-flag_char Flag.hash args = refl
flag-flag_char Flag.zero_flag args = refl

-- The loops, from the next character of `s` on.
abbrev flags_on : FormatArgs → Str → Option (FormatArgs × ℕ × Str)
flags_on args [] = none
flags_on args (c ∷ iter) = parse_flags args c iter

abbrev number_on : ℕ → Str → Option (ℕ × ℕ × Str)
number_on n [] = none
number_on n (c ∷ iter) = parse_number n c iter

-- What the loop does with the flag that it has read.
abbrev at_end : FormatArgs → ℕ → Option FormatArgs → Option (FormatArgs × ℕ × Str)
at_end args next f = elim f [ none ↦ some (args, next, []) | some args' ↦ none ]

abbrev go_on : FormatArgs → ℕ → ℕ → Str → Option FormatArgs → Option (FormatArgs × ℕ × Str)
go_on args next c iter f = elim f [
  | none ↦ some (args, next, c ∷ iter)
  | some args' ↦ parse_flags args' c iter
]

flag_step :
    (f : Flag) (args : FormatArgs) (s : Str)
    → flags_on args (flag_char f ∷ s) ≡ flags_on (set_flag f args) s
unfolding parse_flags
flag_step f args [] = ap (at_end args (flag_char f)) (flag-flag_char f args)
flag_step f args (c ∷ s) = ap (go_on args (flag_char f) c s) (flag-flag_char f args)

flags_on-flags :
    (flags : List Flag) (args : FormatArgs) (s : Str)
    → flags_on args (map flag_char flags ++ s) ≡ flags_on (set_flags flags args) s
flags_on-flags [] args s = refl
flags_on-flags (f ∷ flags) args s =
    flag_step f args (map flag_char flags ++ s) ∙ flags_on-flags flags (set_flag f args) s

abbrev pub IsFlagless : ℕ → Type 0
IsFlagless c = (f : Flag) → c ≢ flag_char f

no_flag : (c : ℕ) (args : FormatArgs) → IsFlagless c → flag c args ≡ none
no_flag c args h =
    let a = h Flag.minus in
    let b = h Flag.plus in
    let d = h Flag.space in let e = h Flag.hash in let g = h Flag.zero_flag in ground arith

flags_on-end :
    (args : FormatArgs) (c : ℕ) (s : Str) → IsFlagless c → flags_on args (c ∷ s) ≡ some (args, c, s)
unfolding parse_flags
flags_on-end args c [] h = ap (at_end args c) (no_flag c args h)
flags_on-end args c (d ∷ s) h = ap (go_on args c d s) (no_flag c args h)

abbrev pub IsDecimal : Str → Type 0
IsDecimal s = All (λ c. is_ascii_digit c ≡ true) s

read_from-ge : (n : ℕ) (ds : Str) → n ≤ read_from 10 n ds
unfolding read_from
read_from-ge n [] = omega arith
read_from-ge n (c ∷ ds) = omega (arith, read_from-ge (n * 10 + digit_value c) ds)

digit_value-decimal : (c : ℕ) → is_ascii_digit c ≡ true → digit_value c ≡ c - b'0'
digit_value-decimal c h = ground arith

number_on-digit :
    (n c : ℕ) (s : Str)
    → is_ascii_digit c ≡ true
    → n * 10 + digit_value c < 2 ^ 64
    → number_on n (c ∷ s) ≡ number_on (n * 10 + digit_value c) s
unfolding parse_number
number_on-digit n c [] h b = rw h refl
number_on-digit n c (d ∷ s) h b =
    let e : (n * 10 + (c - b'0')) % 2 ^ 64 ≡ n * 10 + digit_value c =
      omega (arith, digit_value-decimal c h) in
    rw h (rw e refl)

number_on-end :
    (n c : ℕ) (s : Str) → is_ascii_digit c ≡ false → number_on n (c ∷ s) ≡ some (n, c, s)
unfolding parse_number
number_on-end n c [] h = rw h refl
number_on-end n c (d ∷ s) h = rw h refl

-- Digits are read as their number, if it fits, up to a character that is no digit.
number_on-digits :
    (ds : Str) (n c : ℕ) (s : Str)
    → IsDecimal ds
    → is_ascii_digit c ≡ false
    → read_from 10 n ds < 2 ^ 64
    → number_on n (ds ++ c ∷ s) ≡ some (read_from 10 n ds, c, s)
unfolding read_from
number_on-digits [] n c s h e b = number_on-end n c s e
number_on-digits (d ∷ ds) n c s h e b =
    number_on-digit n d (ds ++ c ∷ s) h.0 (omega (arith, read_from-ge (n * 10 + digit_value d) ds))
    ∙ number_on-digits ds (n * 10 + digit_value d) c s h.1 e b

-- The digits of a width start with a flag's character only if they start with a zero.
abbrev pub IsWidth : Str → Type 0
IsWidth [] = Unit
IsWidth (c ∷ ds) = (c ≢ b'0') × IsDecimal (c ∷ ds)

IsWidth-IsDecimal : (ds : Str) → IsWidth ds → IsDecimal ds
IsWidth-IsDecimal [] h = tt
IsWidth-IsDecimal (c ∷ ds) h = h.1

IsFlagless-digit : (c : ℕ) → is_ascii_digit c ≡ true → c ≢ b'0' → IsFlagless c
IsFlagless-digit c h z Flag.minus = ground arith
IsFlagless-digit c h z Flag.plus = ground arith
IsFlagless-digit c h z Flag.space = ground arith
IsFlagless-digit c h z Flag.hash = ground arith
IsFlagless-digit c h z Flag.zero_flag = z

-- A character that ends flags and digits.
abbrev pub IsStop : ℕ → Type 0
IsStop c = (is_ascii_digit c ≡ false) × IsFlagless c

set_flag-precision : (f : Flag) (args : FormatArgs) → (set_flag f args).precision ≡ args.precision
set_flag-precision Flag.minus args = refl
set_flag-precision Flag.plus args = refl
set_flag-precision Flag.space args = refl
set_flag-precision Flag.hash args = refl
set_flag-precision Flag.zero_flag args = refl

set_flags-precision :
    (flags : List Flag) (args : FormatArgs) → (set_flags flags args).precision ≡ args.precision
set_flags-precision [] args = refl
set_flags-precision (f ∷ flags) args =
    set_flags-precision flags (set_flag f args) ∙ set_flag-precision f args

module _ (decimal_point : ℕ) where
  abbrev after_flags : FormatArgs × ℕ × Str → Option (ℕ × FormatArgs × Str)
  after_flags (args, next, iter) = parse_number 0 next iter >>= λ r. parse_rest decimal_point args r

  from_flags :
      (s : Str)
      → parse_conversion_specifier_args decimal_point s ≡ flags_on default s >>= λ r. after_flags r
  unfolding parse_conversion_specifier_args
  from_flags [] = refl
  from_flags (c ∷ iter) = refl

  width_step :
      (args : FormatArgs) (wds : Str) (c : ℕ) (s : Str)
      → IsWidth wds
      → IsStop c
      → read 10 wds < 2 ^ 64
      → (flags_on args (wds ++ c ∷ s) >>= λ r. after_flags r)
        ≡ parse_rest decimal_point args (read 10 wds, c, s)
  width_step args [] c s h (d, f) b =
      ap (λ (o : Option (FormatArgs × ℕ × Str)). o >>= λ r. after_flags r) (flags_on-end args c s f)
      ∙ ap (λ (o : Option (ℕ × ℕ × Str)). o >>= λ r. parse_rest decimal_point args r)
          (number_on-digits [] 0 c s tt d b)
  width_step args (w ∷ wds) c s h (d, f) b =
      ap (λ (o : Option (FormatArgs × ℕ × Str)). o >>= λ r. after_flags r)
        (flags_on-end args w (wds ++ c ∷ s) (IsFlagless-digit w h.1.0 h.0))
      ∙ ap (λ (o : Option (ℕ × ℕ × Str)). o >>= λ r. parse_rest decimal_point args r)
          (number_on-digits (w ∷ wds) 0 c s h.1 d b)

  parse_precision-digits :
      (ds : Str) (c : ℕ) (s : Str)
      → IsDecimal ds
      → is_ascii_digit c ≡ false
      → read 10 ds < 2 ^ 64
      → parse_precision (ds ++ c ∷ s) ≡ some (read 10 ds, c, s)
  parse_precision-digits [] c s h e b = number_on-digits [] 0 c s h e b
  parse_precision-digits (d ∷ ds) c s h e b = number_on-digits (d ∷ ds) 0 c s h e b

  abbrev pub precision_text : Option Str → Str → Str
  precision_text none s = s
  precision_text (some ds) s = decimal_point ∷ (ds ++ s)

  abbrev pub precision_value : Option Str → Option ℕ
  precision_value none = none
  precision_value (some ds) = some (read 10 ds)

  abbrev pub IsPrecision : Option Str → Type 0
  IsPrecision none = Unit
  IsPrecision (some ds) = IsDecimal ds × (read 10 ds < 2 ^ 64)

  at_stop :
      (args : FormatArgs) (w c : ℕ) (s : Str)
      → args.precision ≡ none
      → c ≢ decimal_point
      → parse_rest decimal_point args (w, c, s)
        ≡ some (c, record args { width = w; precision = none }, s)
  at_stop args w c s e differ =
      let d : (c == decimal_point) ≡ false = ground arith in
      rw d (ap (λ (p : Option ℕ). some (c, record args { width = w; precision = p }, s)) e)

  at_point :
      (args : FormatArgs) (w c : ℕ) (ds s : Str)
      → IsDecimal ds
      → is_ascii_digit c ≡ false
      → read 10 ds < 2 ^ 64
      → parse_rest decimal_point args (w, decimal_point, ds ++ c ∷ s)
        ≡ some (c, record args { width = w; precision = some (read 10 ds) }, s)
  at_point args w c ds s h d b =
      let e : (decimal_point == decimal_point) ≡ true = ground arith in
      rw e (
        ap
          (λ (o : Option (ℕ × ℕ × Str)).
            o >>= λ r. some (with_precision (record args { width = w }) r))
          (parse_precision-digits ds c s h d b))

  rest_step :
      (args : FormatArgs) (wds : Str) (precision : Option Str) (c : ℕ) (s : Str)
      → args.precision ≡ none
      → IsWidth wds
      → read 10 wds < 2 ^ 64
      → IsPrecision precision
      → IsStop decimal_point
      → IsStop c
      → c ≢ decimal_point
      → (flags_on args (wds ++ precision_text precision (c ∷ s)) >>= λ r. after_flags r)
        ≡ some (c, record args { width = read 10 wds; precision = precision_value precision }, s)
  rest_step args wds none c s e h b p point stop differ =
      width_step args wds c s h stop b ∙ at_stop args (read 10 wds) c s e differ
  rest_step args wds (some ds) c s e h b (p, b') point stop differ =
      width_step args wds decimal_point (ds ++ c ∷ s) h point b
      ∙ at_point args (read 10 wds) c ds s p stop.0 b'

  -- A conversion is read back: flags in any order, then a width that does not start with a zero, then a precision
  -- behind a decimal point or none, then a character that is no flag, no digit and no decimal point give that
  -- character, the arguments with these flags, width and precision, and what is behind. Width and precision
  -- fit in a `usize`, and the decimal point is no flag and no digit.
  pub parse_conversion_specifier_args_lem :
      (flags : List Flag) (wds : Str) (precision : Option Str) (c : ℕ) (s : Str)
      → IsWidth wds
      → read 10 wds < 2 ^ 64
      → IsPrecision precision
      → IsStop decimal_point
      → IsStop c
      → c ≢ decimal_point
      → parse_conversion_specifier_args decimal_point
          (map flag_char flags ++ (wds ++ precision_text precision (c ∷ s)))
        ≡ some (
          c,
          record (set_flags flags default) {
            width = read 10 wds;
            precision = precision_value precision;
          },
          s,
        )
  parse_conversion_specifier_args_lem flags wds precision c s h b p point stop differ =
      from_flags (map flag_char flags ++ (wds ++ precision_text precision (c ∷ s)))
      ∙ ap (λ (o : Option (FormatArgs × ℕ × Str)). o >>= λ r. after_flags r)
          (flags_on-flags flags default (wds ++ precision_text precision (c ∷ s)))
      ∙ rest_step (set_flags flags default) wds precision c s (set_flags-precision flags default) h
          b p point stop differ

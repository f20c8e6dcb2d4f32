-- ===== src/Std/Numerals.antt =====
-- Numbers and their texts: `from_str_radix` at 8, `parse` for `i64` and `u32`, `to_string` of `i64`.
pub mod RoundTrip
use posixutils_rs.Prelude.{
  ℕ, zero, suc, ◌+◌, ◌-◌, ◌*◌, ◌/◌, ◌%◌, ◌^◌, List, [], ◌∷◌, ◌++◌, true, Bool, ◌&&◌, leb, ltb, ◌==◌,
  if◌then◌else◌, Option, none, some,
}
use mathlib.Core.Option
use posixutils_rs.Std.Strings.{Str}
use posixutils_rs.Std.Integers.{ℤ, pos, negsuc, signed}

-- `u32::from_str_radix` of std at 8: a `+` may stand before the digits, of which there is one at least, and
-- the number must fit.
unfoldable pub octal_digits : ℕ → List ℕ → Option ℕ
octal_digits n [] = some n
octal_digits n (c ∷ cs) =
    let m = n * 8 + (c - b'0') in
    let rest = octal_digits m cs in
    if leb b'0' c && leb c b'7' && ltb m (2 ^ 32) then rest else none

unfoldable pub octal_number : List ℕ → Option ℕ
octal_number [] = none
octal_number (c ∷ cs) = octal_digits 0 (c ∷ cs)

unfoldable pub from_str_radix_8 : List ℕ → Option ℕ
from_str_radix_8 [] = none
from_str_radix_8 (c ∷ cs) = if c == b'+' then octal_number cs else octal_number (c ∷ cs)

-- The digits of `str::parse` for `i64`, of which there is one at least, behind a sign or not; `limit` is the
-- largest number that fits.
unfoldable pub decimal_digits : ℕ → ℕ → Str → Option ℕ
decimal_digits limit n [] = some n
decimal_digits limit n (c ∷ cs) =
    let m = n * 10 + (c - b'0') in
    let rest = decimal_digits limit m cs in
    if leb b'0' c && leb c b'9' && leb m limit then rest else none

unfoldable pub decimal : ℕ → Str → Option ℕ
decimal limit [] = none
decimal limit (c ∷ cs) = decimal_digits limit 0 (c ∷ cs)

unfoldable pub parse_i64 : Str → Option ℤ
parse_i64 [] = none
parse_i64 (c ∷ cs) =
    if c == b'-'
    then Option.map (signed true) (decimal (2 ^ 63) cs)
    else Option.map pos (decimal (2 ^ 63 - 1) (if c == b'+' then cs else c ∷ cs))

unfoldable pub parse_u32 : Str → Option ℕ
parse_u32 [] = none
parse_u32 (c ∷ cs) = decimal (2 ^ 32 - 1) (if c == b'+' then cs else c ∷ cs)

-- `str::parse` for `usize`.
unfoldable pub parse_usize : Str → Option ℕ
parse_usize [] = none
parse_usize (c ∷ cs) = decimal (2 ^ 64 - 1) (if c == b'+' then cs else c ∷ cs)

-- `to_string` of a number; `i64` has at most 19 digits.
unfoldable pub show_digits : ℕ → ℕ → Str
show_digits zero n = []
show_digits (suc fuel) n =
    let front = show_digits fuel (n / 10) in
    if ltb n 10 then (b'0' + n) ∷ [] else front ++ (b'0' + n % 10) ∷ []

unfoldable pub show_i64 : ℤ → Str
show_i64 (pos n) = show_digits 19 n
show_i64 (negsuc n) = b'-' ∷ show_digits 19 (n + 1)

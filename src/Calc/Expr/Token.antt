-- ===== src/Calc/Expr/Token.antt =====
-- calc/expr.rs: tokens, and what a step of the evaluation returns.
use posixutils_rs.Prelude.{List, [], ◌∷◌, Bool, true, false, Option, none, some}
use posixutils_rs.Std.Strings.{Str, codes, match_str}
use posixutils_rs.Std.Integers.{ℤ, pos, eq_ℤ}
use posixutils_rs.Std.Numerals.{parse_i64, show_i64}

pub data Token : Type 0 where
  left_paren right_paren : Token
  op_mul op_div op_rem op_add op_sub : Token
  op_eq op_gt op_lt op_ge op_le op_ne : Token
  op_and op_or op_match : Token
  integer : ℤ → Token
  str : Str → Token

-- The messages of the source; `unmatched_left` and `unmatched_right` are EP0 and EP1.
pub data Error : Type 0 where
  not_a_string not_an_integer invalid_regex : Error
  unmatched_left unmatched_right wanted_operator : Error
  not_an_lval not_one_token : Error

-- `out_of_fuel` belongs to the model alone.
pub data Result {ℓ} (A : Type ℓ) : Type ℓ where
  ok : A → Result A
  err : Error → Result A
  panic out_of_fuel : Result A

infixl 5 ◌>>?◌
abbrev pub ◌>>?◌ {ℓ κ} : {A : Type ℓ} {B : Type κ} → Result A → (A → Result B) → Result B
ok a >>? next = next a
err e >>? next = err e
panic >>? next = panic
out_of_fuel >>? next = out_of_fuel

unfoldable pub token_display : Token → Result Str
token_display (integer z) = ok (show_i64 z)
token_display (str s) = ok s
token_display _ = panic

abbrev pub token_is_lval : Token → Bool
token_is_lval (integer _) = true
token_is_lval (str _) = true
token_is_lval _ = false

abbrev pub str_is_empty : Str → Bool
str_is_empty [] = true
str_is_empty (_ ∷ _) = false

unfoldable pub token_is_zero : Token → Bool
token_is_zero (integer z) = eq_ℤ z (pos 0)
token_is_zero (str s) = str_is_empty s
token_is_zero _ = false

unfoldable pub token_to_string : Token → Result Str
token_to_string (integer z) = ok (show_i64 z)
token_to_string (str s) = ok s
token_to_string _ = err not_a_string

abbrev pub token_to_int : Token → Option ℤ
token_to_int (integer z) = some z
token_to_int _ = none

abbrev pub token_to_int_req : Token → Result ℤ
token_to_int_req t = elim (token_to_int t) [ some z ↦ ok z | none ↦ err not_an_integer ]

-- The words that are operators and parentheses.
abbrev pub symbols : List (Str × Token)
symbols =
    (codes "(", left_paren)
    ∷ (codes ")", right_paren)
    ∷ (codes "*", op_mul)
    ∷ (codes "/", op_div)
    ∷ (codes "%", op_rem)
    ∷ (codes "+", op_add)
    ∷ (codes "-", op_sub)
    ∷ (codes "=", op_eq)
    ∷ (codes ">", op_gt)
    ∷ (codes "<", op_lt)
    ∷ (codes ">=", op_ge)
    ∷ (codes "<=", op_le)
    ∷ (codes "!=", op_ne)
    ∷ (codes "&", op_and)
    ∷ (codes "|", op_or)
    ∷ (codes ":", op_match)
    ∷ []

-- `s.parse::<i64>()`
abbrev pub or_str : Option ℤ → Str → Token
or_str (some z) s = integer z
or_str none s = str s

abbrev pub or_operand : Option Token → Str → Token
or_operand (some t) s = t
or_operand none s = or_str (parse_i64 s) s

unfoldable pub parse_token : Str → Token
parse_token s = or_operand (match_str symbols s) s

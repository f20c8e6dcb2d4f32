-- ===== src/Calc/Expr/Reparsed.antt =====
-- An integer that `expr` prints, as an argument of the next `expr`.
use posixutils_rs.Prelude.{ℕ, ◌+◌, ◌≤◌, ◌≡◌, refl, ap, ◌∷◌, none, arith}
use posixutils_rs.Std.Strings.{Str, match_str, str_eq}
use posixutils_rs.Std.Integers.{ℤ, pos, negsuc, IsI64}
use posixutils_rs.Std.Numerals.{show_i64}
use posixutils_rs.Std.Numerals.RoundTrip.{show_digits-cons, parse_i64-show_i64}
use posixutils_rs.Calc.Expr.Token
use posixutils_rs.Calc.Expr.Token.{Token, integer, ok, ◌>>?◌, parse_token, token_display}

digit_first : (c : ℕ) (cs : Str) → 48 ≤ c → c ≤ 57 → match_str Token.symbols (c ∷ cs) ≡ none
unfolding match_str str_eq
digit_first c cs h k = ground arith

minus_first : (c : ℕ) (cs : Str) → match_str Token.symbols (45 ∷ c ∷ cs) ≡ none
unfolding match_str str_eq
minus_first c cs = ground arith

not_a_symbol : (z : ℤ) → match_str Token.symbols (show_i64 z) ≡ none
unfolding show_i64
not_a_symbol (pos n) = let (c, cs, e, h, k) = show_digits-cons 18 n in rw e (digit_first c cs h k)
not_a_symbol (negsuc n) =
    let (c, cs, e, _, _) = show_digits-cons 18 (n + 1) in rw e (minus_first c cs)

-- An `i64` that is displayed is read back as the same integer, and never as an operator or a string.
pub parse_token-token_display :
    (z : ℤ) → IsI64 z → (token_display (integer z) >>? λ s. ok (parse_token s)) ≡ ok (integer z)
unfolding token_display parse_token
parse_token-token_display z h = ap ok (rw (not_a_symbol z) (rw (parse_i64-show_i64 z h) refl))

-- ===== src/Misc/Test/Negation.antt =====
-- `!` before a test, and `[` with its bracket.
use posixutils_rs.Prelude.{
  ◌≤◌, ◌≡◌, refl, ap, List, [], ◌∷◌, ◌++◌, false, some, arith, length, if◌then◌else◌,
}
use posixutils_rs.Std.Strings.{Str, codes, str_eq}
use posixutils_rs.Misc.Test.{System, missing_closing_bracket}
use posixutils_rs.Misc.Test.Main.{negated, is_bang, ends_with_bracket, pop, dispatch, run, exit}

-- Before one, two or three arguments of which the first is not `!`, a `!` negates the result of the test: the
-- message, if there is one, and a panic stay.
pub dispatch-negated :
    (system : System) (arg : Str) (args : List Str)
    → is_bang arg ≡ false
    → length args ≤ 2
    → dispatch system (codes "!" ∷ arg ∷ args) ≡ negated (dispatch system (arg ∷ args))
unfolding dispatch str_eq
dispatch-negated system arg [] p h = refl
dispatch-negated system arg (arg2 ∷ []) p h = rw p refl
dispatch-negated system arg (arg2 ∷ arg3 ∷ []) p h = rw p refl
dispatch-negated system arg (arg2 ∷ arg3 ∷ arg4 ∷ args) p h = absurd (omega arith)

ends_with_bracket-append :
    (name : Str) (args : List Str) (last : Str)
    → ends_with_bracket (name ∷ args ++ last ∷ []) ≡ str_eq last (codes "]")
ends_with_bracket-append name [] last = refl
ends_with_bracket-append name (arg ∷ args) last = ends_with_bracket-append arg args last

pop-append : (args : List Str) (last : Str) → pop (args ++ last ∷ []) ≡ args
pop-append [] last = refl
pop-append (arg ∷ []) last = refl
pop-append (arg ∷ arg' ∷ args) last = ap (λ l. arg ∷ l) (pop-append (arg' ∷ args) last)

-- `[` with the arguments `args` and a last one: if that is `]`, the test of `args`, else the message about the bracket and
-- the exit status 1.
pub run-bracket :
    (system : System) (args : List Str) (last : Str)
    → run system (codes "[" ∷ args ++ last ∷ []) ≡ (
        if str_eq last (codes "]")
        then run system (codes "test" ∷ args)
        else exit (some missing_closing_bracket) 1)
unfolding run str_eq
run-bracket system args last =
    rw (ends_with_bracket-append (codes "[") args last) (rw (pop-append args last) refl)

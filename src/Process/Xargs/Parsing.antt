-- ===== src/Process/Xargs/Parsing.antt =====
-- Parsing in pieces, and behind arguments that were removed.
use posixutils_rs.Prelude.{
  ℕ, ◌≡◌, refl, ap, ◌∙◌, List, [], ◌∷◌, ◌++◌, append_assoc, Bool, true, false, Option,
  if◌then◌else◌, arith,
}
use posixutils_rs.Std.Strings.{Str}
use posixutils_rs.Process.Xargs.{ParseState, with_args, push_arg, parse_char, parse_chars}

pub parse_chars-append :
    (st : ParseState) (buf buf' : List ℕ)
    → parse_chars st (buf ++ buf') ≡ parse_chars (parse_chars st buf) buf'
unfolding parse_chars
parse_chars-append st [] buf' = refl
parse_chars-append st (ch ∷ buf) buf' = parse_chars-append (parse_char st ch) buf buf'

-- A state behind arguments that were removed from it.
abbrev pub behind : List Str → ParseState → ParseState
behind gone st = with_args (gone ++ st.args) st

push_arg-behind :
    (gone : List Str) (st : ParseState) → push_arg (behind gone st) ≡ behind gone (push_arg st)
push_arg-behind gone st =
    ap (λ args. record (push_arg st) { args = args }) (append_assoc gone st.args (st.tmp_arg ∷ []))

if-ap :
    (f : ParseState → ParseState) (b : Bool) (x y : ParseState)
    → (if b then f x else f y) ≡ f (if b then x else y)
if-ap f true x y = refl
if-ap f false x y = refl

parse_char-behind :
    (gone : List Str) (st : ParseState) (ch : ℕ)
    → parse_char (behind gone st) ch ≡ behind gone (parse_char st ch)
unfolding parse_char
parse_char-behind gone st ch = ground (arith, append_assoc gone st.args (st.tmp_arg ∷ []))

pub parse_chars-behind :
    (gone : List Str) (st : ParseState) (buf : List ℕ)
    → parse_chars (behind gone st) buf ≡ behind gone (parse_chars st buf)
unfolding parse_chars
parse_chars-behind gone st [] = refl
parse_chars-behind gone st (ch ∷ buf) =
    rw (parse_char-behind gone st ch) (parse_chars-behind gone (parse_char st ch) buf)

-- What no character changes.
abbrev pub limits : ParseState → (ℕ × ℕ × ℕ × Option ℕ × Bool × List ℕ)
limits st =
    (st.util_size, st.util_n_args, st.max_bytes, st.max_args, st.skip_remainder, st.null_slop)

limits-parse_char : (st : ParseState) (ch : ℕ) → limits (parse_char st ch) ≡ limits st
unfolding parse_char
limits-parse_char st ch = ground arith

pub limits-parse_chars : (st : ParseState) (buf : List ℕ) → limits (parse_chars st buf) ≡ limits st
unfolding parse_chars
limits-parse_chars st [] = refl
limits-parse_chars st (ch ∷ buf) =
    limits-parse_chars (parse_char st ch) buf ∙ limits-parse_char st ch

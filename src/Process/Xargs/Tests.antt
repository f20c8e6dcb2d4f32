-- ===== src/Process/Xargs/Tests.antt =====
-- `xargs` and its theorems at concrete inputs.
use posixutils_rs.Prelude.{
  ℕ, ◌+◌, ◌<◌, ◌≡◌, refl, inl, List, [], ◌∷◌, ◌++◌, map, All, Bool, true, false, Option, none, some,
  arith,
}
use mathlib.Core.List.{flatten}
use posixutils_rs.Std.Strings.{Str, codes}
use posixutils_rs.Std.Chars.{len}
use posixutils_rs.Process.Xargs.{
  Args, ParseState, add_sizes, new, full, remove_from, remove_args, with_args, parse_char,
  parse_chars, parse_buf, parse_buf_null, parse_finalize, postprocess,
}
use posixutils_rs.Process.Xargs.Spawning.{Spawned, spawn_all, read_all, spawn_rest, read_and_spawn}
use posixutils_rs.Process.Xargs.Limits.{Fits}
use posixutils_rs.Process.Xargs.Quoting.{Token, Piece, source, words, IsToken}
use posixutils_rs.Process.Xargs.Invocations.{Runs, read_and_spawn-Runs, read_and_spawn-source}
use posixutils_rs.Process.Xargs.Endless.{spawn_all-endless_number, spawn_all-endless_size}
use posixutils_rs.Process.Xargs.Nulls.{
  with_slop, printed, parse_buf_null-append, parse_buf_null-printed,
}

abbrev from_utf8_lossy : List ℕ → Str
from_utf8_lossy bytes = bytes

abbrev exec : Str → List Str → Bool
exec util line = true

abbrev with_max : ℕ → Args
with_max n = record {
  maxnum = some n;
  maxsize = some 20;
  eofstr = [];
  null_mode = false;
  util = codes "u";
  util_args = codes "x" ∷ [];
}

abbrev reads : List (List ℕ)
reads = codes "a 'b" ∷ codes " c'd\\e " ∷ []

abbrev tokens : List Token
tokens =
    Token.word 97 [] 32
    ∷ Token.quoted b'\'' (codes "b c")
    ∷ Token.word 100 (Piece.escaped 101 ∷ []) 32
    ∷ []

abbrev invoked : Option Spawned → Option (List (List Str))
invoked none = none
invoked (some s) = some s.invoked

read_and_spawn_test :
    invoked (read_and_spawn from_utf8_lossy exec (with_max 3) reads)
    ≡ some ((codes "x" ∷ codes "a" ∷ codes "b c" ∷ []) ∷ (codes "x" ∷ codes "de" ∷ []) ∷ [])
unfolding read_and_spawn read_all spawn_all full postprocess parse_buf parse_chars parse_char
    add_sizes len remove_args remove_from spawn_rest parse_finalize
read_and_spawn_test = refl

starts : (line : List Str) → exec (codes "u") line ≡ true
starts line = refl

room : full (new (with_max 3)) ≡ false
unfolding full add_sizes len
room = refl

fits : All (Fits (with_max 3)) (flatten (map words tokens))
unfolding add_sizes len flatten
fits = (omega arith, (omega arith, (omega arith, tt)))

tokens-IsToken : All IsToken tokens
tokens-IsToken = (
  ((refl, (λ e. omega arith), (λ e. omega arith), (λ e. omega arith)), tt, refl),
  (
    (inl refl, ((λ e. omega arith), ((λ e. omega arith), ((λ e. omega arith), tt)))),
    (((refl, (λ e. omega arith), (λ e. omega arith), (λ e. omega arith)), (tt, tt), refl), tt),
  ),
)

whole_input : flatten reads ≡ flatten (map source tokens)
unfolding flatten
whole_input = refl

read_and_spawn-source_example :
    Runs
      (with_max 3)
      (flatten (map words tokens))
      (read_and_spawn from_utf8_lossy exec (with_max 3) reads)
read_and_spawn-source_example =
    read_and_spawn-source from_utf8_lossy exec (with_max 3) starts room refl refl tokens reads
      whole_input tokens-IsToken fits

parsed-Fits : All (Fits (with_max 3)) (parse_chars (new (with_max 3)) (flatten reads)).args
unfolding add_sizes len flatten parse_chars parse_char
parsed-Fits = (omega arith, (omega arith, (omega arith, tt)))

outside : (parse_chars (new (with_max 3)) (flatten reads)).in_arg ≡ false
unfolding flatten parse_chars parse_char
outside = refl

read_and_spawn-Runs_example :
    Runs
      (with_max 3)
      (parse_chars (new (with_max 3)) (flatten reads)).args
      (read_and_spawn from_utf8_lossy exec (with_max 3) reads)
read_and_spawn-Runs_example =
    read_and_spawn-Runs from_utf8_lossy exec (with_max 3) starts room refl refl reads parsed-Fits
      outside

abbrev waiting : ParseState
waiting = with_args (codes "a" ∷ []) (new (with_max 1))

spawn_all-endless_number_example : spawn_all from_utf8_lossy exec 1000 (with_max 1) waiting ≡ none
spawn_all-endless_number_example =
    spawn_all-endless_number from_utf8_lossy exec (with_max 1) starts 1000 waiting refl

abbrev long : Str
long = codes "a word that is too long"

too_long : 20 < add_sizes (len (codes "u")) (codes "x" ∷ []) + len long + 1
unfolding add_sizes len
too_long = omega arith

spawn_all-endless_size_example :
    spawn_all from_utf8_lossy exec 1000 (with_max 3) (with_args (long ∷ []) (new (with_max 3)))
    ≡ none
spawn_all-endless_size_example =
    spawn_all-endless_size from_utf8_lossy exec (with_max 3) starts 1000 (new (with_max 3)) long []
      too_long

parse_buf_null-append_example :
    parse_buf_null from_utf8_lossy
      (parse_buf_null from_utf8_lossy waiting (97 ∷ 0 ∷ 98 ∷ []))
      (99 ∷ 0 ∷ [])
    ≡ parse_buf_null from_utf8_lossy waiting (97 ∷ 0 ∷ 98 ∷ 99 ∷ 0 ∷ [])
parse_buf_null-append_example =
    parse_buf_null-append from_utf8_lossy waiting (97 ∷ 0 ∷ 98 ∷ []) (99 ∷ 0 ∷ [])

abbrev parts : List (List ℕ)
parts = codes "a b" ∷ codes "c" ∷ []

parse_buf_null-printed_example :
    parse_buf_null from_utf8_lossy waiting (flatten (map printed parts))
    ≡ with_slop [] (with_args (waiting.args ++ map from_utf8_lossy parts) waiting)
parse_buf_null-printed_example =
    parse_buf_null-printed from_utf8_lossy waiting parts refl refl
      ((refl, (refl, (refl, tt))), ((refl, tt), tt))

-- A backslash does not begin an argument, and a quote ends one.
escape_test : (parse_chars (new (with_max 3)) (codes "\\a b ")).args ≡ codes "ab" ∷ []
unfolding parse_chars parse_char
escape_test = refl

quote_test : (parse_chars (new (with_max 3)) (codes "a'b'c ")).args ≡ codes "ab" ∷ codes "c" ∷ []
unfolding parse_chars parse_char
quote_test = refl

-- The argument at the end of the input does not fit with those that wait, and is lost.
lost_test :
    invoked (read_and_spawn from_utf8_lossy exec (with_max 9) (codes "1234567 123456789" ∷ []))
    ≡ some ((codes "x" ∷ codes "1234567" ∷ []) ∷ [])
unfolding read_and_spawn read_all spawn_all full postprocess parse_buf parse_chars parse_char
    add_sizes len remove_args remove_from spawn_rest parse_finalize
lost_test = refl

-- ===== src/Process/Xargs/Invocations.antt =====
-- The command lines of a whole run of `read_and_spawn`, and the runs that do not end.
use posixutils_rs.Prelude.{
  ℕ, ◌≡◌, refl, sym, ap, ◌∙◌, subst, List, [], ◌∷◌, ◌++◌, map, append-nil, Bool, true, false,
  Option, some, All, All-append,
}
use mathlib.Core.List.{flatten}
use mathlib.Core.Option.{some-injective}
use posixutils_rs.Std.Strings.{Str}
use posixutils_rs.Process.Xargs.{
  Args, ParseState, Split, new, full, with_args, parse_chars, parse_finalize,
}
use posixutils_rs.Process.Xargs.Spawning.{Spawned, read_and_spawn, spawn_rest, read_all}
use posixutils_rs.Process.Xargs.Limits.{
  Allowed, Fits, Agrees, full-Agrees, remove_args-Agrees, batch-Allowed, batch-all,
}
use posixutils_rs.Process.Xargs.Ending.{command_line, AllAllowed, ran}
use posixutils_rs.Process.Xargs.Quoting.{Token, source, words, IsToken, between, parse_chars-source}
use posixutils_rs.Process.Xargs.Reading.{
  flatten-append, IsRead, IsRead-Agrees, loop-Reads, after-ran,
}

start : (args : Args) → IsRead args [] [] (new args)
unfolding parse_chars
start args = refl

module _ (args : Args) where
  -- `result` runs batches within the limits that are `ready` in order.
  abbrev pub Runs : List Str → Option Spawned → Type 0
  Runs ready result =
      (batches : List (List Str)) × ((st : ParseState) × ((result ≡ some (ran args batches st))
          × (flatten batches ≡ ready)
          × AllAllowed args batches))

module _ (from_utf8_lossy : List ℕ → Str) (exec : Str → List Str → Bool) (args : Args) where
  module _ (starts : (line : List Str) → exec args.util line ≡ true)
      (room : full (new args) ≡ false) where
    rest_step :
        (st : ParseState) (arg : Str) (ready : List Str)
        → Agrees args st
        → full (with_args (arg ∷ ready) st) ≡ false
        → (spawn_rest from_utf8_lossy exec args (with_args (arg ∷ ready) st)
            ≡ ran args ((arg ∷ ready) ∷ []) (with_args [] st))
          × Allowed args (command_line args (arg ∷ ready))
    unfolding spawn_rest
    rest_step st arg ready agrees f =
        let all =
          remove_args-Agrees args st agrees (arg ∷ ready)
          ∙ batch-all args room (arg ∷ ready)
              (sym (full-Agrees args st agrees (arg ∷ ready)) ∙ f) in
        let allowed =
          subst (λ (s : Split). Allowed args (command_line args s.removed))
            (batch-all args room (arg ∷ ready) (sym (full-Agrees args st agrees (arg ∷ ready)) ∙ f))
            (batch-Allowed args room (arg ∷ ready)) in
        (rw all (rw (starts (command_line args (arg ∷ ready))) refl), allowed)

    spawn_rest-Runs :
        (st : ParseState) (ready : List Str)
        → Agrees args st
        → full (with_args ready st) ≡ false
        → Runs args ready (some (spawn_rest from_utf8_lossy exec args (with_args ready st)))
    unfolding flatten spawn_rest
    spawn_rest-Runs st [] agrees f = ([], (with_args [] st, (refl, refl, tt)))
    spawn_rest-Runs st (arg ∷ ready) agrees f =
        let (e, allowed) = rest_step st arg ready agrees f in
        (
          (arg ∷ ready) ∷ [],
          (with_args [] st, (ap some e, append-nil (arg ∷ ready), (allowed, tt))),
        )

    parse_finalize-outside :
        (st : ParseState)
        → st.in_arg ≡ false
        → st.null_slop ≡ []
        → parse_finalize from_utf8_lossy st ≡ st
    unfolding parse_finalize
    parse_finalize-outside st e e' = rw e (rw e' refl)

    whole_run :
        (reads : List (List ℕ)) (xs : List (List Str)) (st : ParseState)
        → read_all from_utf8_lossy exec args (new args) reads ≡ some (ran args xs st)
        → st.in_arg ≡ false
        → st.null_slop ≡ []
        → (ys : List (List Str)) (st' : ParseState)
        → spawn_rest from_utf8_lossy exec args st ≡ ran args ys st'
        → read_and_spawn from_utf8_lossy exec args reads ≡ some (ran args (xs ++ ys) st')
    unfolding read_and_spawn
    whole_run reads xs st e i n ys st' e' =
        rw e (rw (parse_finalize-outside st i n) (rw e' (ap some (after-ran args xs ys st'))))

    -- Every argument of the input is handed to the utility: if each of them fits on a command line, the
    -- utility can be started, the options leave room for an argument, arguments are neither divided by null
    -- bytes nor ended by an `eofstr`, and the input does not end inside of an argument, then for any division
    -- of the input into reads the program ends, its command lines are the utility's arguments followed by
    -- batches that are together the arguments of the input in order, and each is within the limits.
    pub read_and_spawn-Runs :
        args.null_mode ≡ false
        → args.eofstr ≡ []
        → (reads : List (List ℕ)) → All (Fits args) (parse_chars (new args) (flatten reads)).args
        → (parse_chars (new args) (flatten reads)).in_arg ≡ false
        → Runs args
            (parse_chars (new args) (flatten reads)).args
            (read_and_spawn from_utf8_lossy exec args reads)
    read_and_spawn-Runs not_null no_eof reads fits outside =
        let (xs, (st, (run, read, within, f))) =
          loop-Reads from_utf8_lossy exec args not_null no_eof starts room reads (new args) [] []
            (start args) room fits in
        let agrees = IsRead-Agrees args (flatten xs) (flatten reads) st read in
        let in_arg = ap (λ (s : ParseState). s.in_arg) read ∙ outside in
        let slop = ap (λ (l : ℕ × ℕ × ℕ × Option ℕ × Bool × List ℕ). l.5) agrees in
        let (ys, (st', (e, parts, within'))) = spawn_rest-Runs st st.args agrees f in
        (
          xs ++ ys,
          (
            st',
            (
              whole_run reads xs st run in_arg slop ys st' (some-injective _ _ e),
              flatten-append xs ys
                  ∙ ap (λ l. flatten xs ++ l) parts
                  ∙ ap (λ (s : ParseState). s.args) read,
              All-append _ xs ys within within',
            ),
          ),
        )

    -- The words of an input reach the utility: if the utility can be started, the options leave room for an
    -- argument, arguments are neither divided by null bytes nor ended by an `eofstr`, the input is blanks,
    -- words in quotes, and words with escapes outside of quotes, each of these behind its first character and
    -- the word before a whitespace character, and every word fits on a command line, then for any division of
    -- the input into reads the program ends, and its command lines, each within the limits, are the utility's
    -- arguments followed by batches that are together the words in order.
    pub read_and_spawn-source :
        args.null_mode ≡ false
        → args.eofstr ≡ []
        → (tokens : List Token) (reads : List (List ℕ))
        → flatten reads ≡ flatten (map source tokens)
        → All IsToken tokens
        → All (Fits args) (flatten (map words tokens))
        → Runs args (flatten (map words tokens)) (read_and_spawn from_utf8_lossy exec args reads)
    read_and_spawn-source not_null no_eof tokens reads input h fits =
        let (q, e) = parse_chars-source (new args) tokens [] b'"' h in
        let e' : parse_chars (new args) (flatten reads)
            ≡ between (flatten (map words tokens)) q (new args) =
          ap (λ l. parse_chars (new args) l) input ∙ e in
        let parsed = ap (λ (s : ParseState). s.args) e' in
        subst
          (λ (ready : List Str). Runs args ready (read_and_spawn from_utf8_lossy exec args reads))
          parsed
          (read_and_spawn-Runs not_null no_eof reads (subst (All (Fits args)) (sym parsed) fits)
            (ap (λ (s : ParseState). s.in_arg) e'))

-- ===== src/Process/Xargs/Spawning.antt =====
-- process/xargs.rs: the loops of `read_and_spawn`. `exec util line` tells if the utility could be started on a
-- command line; with a false, `exec_util` ends the program with an error.
use posixutils_rs.Prelude.{
  ℕ, zero, suc, List, [], ◌∷◌, ◌++◌, Bool, true, if◌then◌else◌, Option, none, some, ◌>>=◌, length,
}
use posixutils_rs.Std.Strings.{Str}
use posixutils_rs.Process.Xargs.{
  Args, ParseState, is_nil, new, full, remove_args, with_args, parse_buf, parse_buf_null,
  parse_finalize, postprocess,
}

-- The command lines that the utility was run on in turn; `ok` is false when the last one could not be started.
pub record Spawned : Type 0 where
  pub invoked : List (List Str)
  pub state : ParseState
  pub ok : Bool

-- What a next part of the program does, behind command lines that were run.
abbrev pub after : List (List Str) → Spawned → Spawned
after lines s = record { invoked = lines ++ s.invoked; state = s.state; ok = s.ok }

abbrev pub after? : List (List Str) → Option Spawned → Option Spawned
after? lines none = none
after? lines (some s) = some (after lines s)

module _ (from_utf8_lossy : List ℕ → Str) (exec : Str → List Str → Bool) where
  -- `state.remove_args()` and `exec_util` on what it returns.
  abbrev pub spawn : Args → ParseState → Spawned
  spawn args st =
      let cut = remove_args st in
      let util_args = args.util_args ++ cut.removed in
      record {
        invoked = util_args ∷ [];
        state = with_args cut.left st;
        ok = exec args.util util_args;
      }

  -- The loop `while state.full()`; `none` is without an end after `fuel` rounds.
  unfoldable pub spawn_all : ℕ → Args → ParseState → Option Spawned
  spawn_all zero args st = none
  spawn_all (suc fuel) args st =
      let run = spawn args st in
      let rest = spawn_all fuel args run.state in
      if full st
      then if run.ok then after? run.invoked rest else some run
      else some (record { invoked = []; state = st; ok = true })

  abbrev pub parse_read : Args → ParseState → List ℕ → ParseState
  parse_read args st buf =
      if args.null_mode
      then parse_buf_null from_utf8_lossy st buf
      else postprocess args (parse_buf st buf)

  -- The loop that reads; a read is the bytes that it returns. A round of `spawn_all` that does not end the loop
  -- removes an argument or changes nothing, so one more round than there are arguments tells if the loop ends.
  unfoldable pub read_all : Args → ParseState → List (List ℕ) → Option Spawned
  read_all args st [] = some (record { invoked = []; state = st; ok = true })
  read_all args st (buf ∷ reads) =
      let st' = parse_read args st buf in
      spawn_all (suc (length st'.args)) args st' >>= λ s.
      if s.ok then after? s.invoked (read_all args s.state reads) else some s

  -- What is left at the end of the input.
  unfoldable pub spawn_rest : Args → ParseState → Spawned
  spawn_rest args st =
      if is_nil st.args then record { invoked = []; state = st; ok = true } else spawn args st

  unfoldable pub read_and_spawn : Args → List (List ℕ) → Option Spawned
  read_and_spawn args reads = read_all args (new args) reads >>= λ s.
      if s.ok
      then some (after s.invoked (spawn_rest args (parse_finalize from_utf8_lossy s.state)))
      else some s

-- ===== src/Process/Xargs/Endless.antt =====
-- When the loop `while state.full()` does not end.
use posixutils_rs.Prelude.{
  ℕ, zero, suc, ◌+◌, ◌<◌, ◌≡◌, refl, ap, ◌∙◌, List, [], ◌∷◌, Bool, true, Option, none, some, length,
  arith,
}
use posixutils_rs.Std.Strings.{Str}
use posixutils_rs.Std.Chars.{len}
use posixutils_rs.Process.Xargs.{
  Args, ParseState, Split, full, remove_args, with_args, reaches, add_sizes,
}
use posixutils_rs.Process.Xargs.Batches.{remove_from-stuck, add_sizes-ge}
use posixutils_rs.Process.Xargs.Spawning.{spawn_all, after?}
use posixutils_rs.Process.Xargs.Ending.{full_step, command_line}

module _ (from_utf8_lossy : List ℕ → Str) (exec : Str → List Str → Bool) (args : Args)
    (starts : (line : List Str) → exec args.util line ≡ true) where
  full-reaches :
      (st : ParseState)
      → reaches st.max_args (st.util_n_args + length st.args) ≡ true
      → full st ≡ true
  unfolding full
  full-reaches st h = ground arith

  reaches-more :
      (max_args : Option ℕ) (n k : ℕ) → reaches max_args n ≡ true → reaches max_args (n + k) ≡ true
  reaches-more none n k h = h
  reaches-more (some max_args) n k h = ground arith

  -- If the utility can be started, and its own arguments alone reach the number of `-n`, the loop
  -- `while state.full()` never ends, whatever was read.
  pub spawn_all-endless_number :
      (fuel : ℕ) (st : ParseState)
      → reaches st.max_args st.util_n_args ≡ true
      → spawn_all from_utf8_lossy exec fuel args st ≡ none
  unfolding spawn_all
  spawn_all-endless_number zero st h = refl
  spawn_all-endless_number (suc fuel) st h =
      full_step from_utf8_lossy exec args fuel st
        (full-reaches st (reaches-more st.max_args st.util_n_args (length st.args) h)) (starts _)
      ∙ ap (after? (command_line args (remove_args st).removed ∷ []))
          (spawn_all-endless_number fuel (with_args (remove_args st).left st) h)

  full-long :
      (st : ParseState) (arg : Str) (ready : List Str)
      → st.max_bytes < st.util_size + len arg + 1
      → full (with_args (arg ∷ ready) st) ≡ true
  unfolding full add_sizes
  full-long st arg ready h = let e = add_sizes-ge (st.util_size + len arg + 1) ready in ground arith

  -- If the utility can be started, and the first argument that is ready does not fit on a command line, the
  -- loop `while state.full()` never ends.
  pub spawn_all-endless_size :
      (fuel : ℕ) (st : ParseState) (arg : Str) (ready : List Str)
      → st.max_bytes < st.util_size + len arg + 1
      → spawn_all from_utf8_lossy exec fuel args (with_args (arg ∷ ready) st) ≡ none
  unfolding spawn_all remove_args
  spawn_all-endless_size zero st arg ready h = refl
  spawn_all-endless_size (suc fuel) st arg ready h =
      let stuck =
        remove_from-stuck st.max_bytes st.max_args st.util_size st.util_n_args arg ready h in
      let lines = command_line args (remove_args (with_args (arg ∷ ready) st)).removed ∷ [] in
      full_step from_utf8_lossy exec args fuel (with_args (arg ∷ ready) st)
        (full-long st arg ready h) (starts _)
      ∙ ap
          (λ (s : Split).
            after? lines (spawn_all from_utf8_lossy exec fuel args (with_args s.left st)))
          stuck
      ∙ ap (after? lines) (spawn_all-endless_size fuel st arg ready h)

-- ===== src/Process/Xargs/Limits.antt =====
-- The limits that stay the same while the input is read: when the state is full, and what `remove_args` removes then.
use posixutils_rs.Prelude.{
  ℕ, ◌+◌, ◌≤◌, ◌≡◌, refl, ap, subst, List, [], ◌∷◌, ◌++◌, Bool, false, Option, none, some, length,
  arith, length-append,
}
use posixutils_rs.Std.Strings.{Str}
use posixutils_rs.Std.Chars.{len}
use posixutils_rs.Process.Xargs.{
  Args, ParseState, add_sizes, or_default, new, full, remove_args, remove_from, with_args,
}
use posixutils_rs.Process.Xargs.Parsing.{limits}
use posixutils_rs.Process.Xargs.Batches.{
  HasRoom, remove_from-size, remove_from-number, remove_from-all, remove_from-IsSplit,
  remove_from-fits,
}

abbrev pub AtMost : Option ℕ → ℕ → Type 0
AtMost none n = Unit
AtMost (some max_args) n = n ≤ max_args

module _ (args : Args) where
  -- A command line within the limits.
  abbrev pub Allowed : List Str → Type 0
  Allowed line =
      (add_sizes (len args.util) line ≤ or_default args.maxsize 129024)
      × AtMost args.maxnum (length line)

  -- An argument that fits on the command line behind those of the utility.
  abbrev pub Fits : Str → Type 0
  Fits arg = add_sizes (len args.util) args.util_args + len arg + 1 ≤ or_default args.maxsize 129024

  -- The limits in the state are those of the options.
  abbrev pub Agrees : ParseState → Type 0
  Agrees st = limits st ≡ limits (new args)

  pub full-Agrees :
      (st : ParseState)
      → Agrees st
      → (ready : List Str) → full (with_args ready st) ≡ full (with_args ready (new args))
  unfolding full
  full-Agrees st e ready =
      ap
        (λ (l : ℕ × ℕ × ℕ × Option ℕ × Bool × List ℕ). full (record (new args) {
          util_size = l.0;
          util_n_args = l.1;
          max_bytes = l.2;
          max_args = l.3;
          args = ready;
        }))
        e

  pub remove_args-Agrees :
      (st : ParseState)
      → Agrees st
      → (ready : List Str)
      → remove_args (with_args ready st) ≡ remove_args (with_args ready (new args))
  unfolding remove_args
  remove_args-Agrees st e ready =
      ap
        (λ (l : ℕ × ℕ × ℕ × Option ℕ × Bool × List ℕ). remove_args (record (new args) {
          util_size = l.0;
          util_n_args = l.1;
          max_bytes = l.2;
          max_args = l.3;
          args = ready;
        }))
        e

  has_room :
      (ready : List Str)
      → full (with_args ready (new args)) ≡ false
      → (add_sizes (add_sizes (len args.util) args.util_args) ready
          ≤ or_default args.maxsize 129024)
        × HasRoom args.maxnum (length args.util_args + length ready)
  unfolding full
  has_room ready h = ground arith

  add_sizes-append :
      (total : ℕ) (line more : List Str)
      → add_sizes total (line ++ more) ≡ add_sizes (add_sizes total line) more
  unfolding add_sizes
  add_sizes-append total [] more = refl
  add_sizes-append total (arg ∷ line) more = add_sizes-append (total + len arg + 1) line more

  add_sizes-nil : (total : ℕ) → add_sizes total [] ≡ total
  unfolding add_sizes
  add_sizes-nil total = refl

  AtMost-batch :
      (maxnum : Option ℕ) (n total max_bytes : ℕ) (ready : List Str)
      → HasRoom maxnum n
      → AtMost maxnum (n + length (remove_from max_bytes maxnum total n ready).removed)
  AtMost-batch none n total max_bytes ready r = tt
  AtMost-batch (some max_args) n total max_bytes ready r =
      remove_from-number max_bytes max_args total n ready (ground arith)

  module _ (room : full (new args) ≡ false) (ready : List Str) where
    -- What is removed is within the limits, behind the arguments of the utility.
    pub batch-Allowed :
        Allowed (args.util_args ++ (remove_args (with_args ready (new args))).removed)
    unfolding remove_args
    batch-Allowed =
        let (size, number) = has_room [] room in
        let total = add_sizes (len args.util) args.util_args in
        let n = length args.util_args in
        let max_bytes = or_default args.maxsize 129024 in
        let empty_add : add_sizes total [] ≡ total = add_sizes-nil total in
        let batch = (remove_from max_bytes args.maxnum total n ready).removed in
        (
          rw (add_sizes-append (len args.util) args.util_args batch) (
              remove_from-size max_bytes args.maxnum total n ready
                (subst (λ t. t ≤ max_bytes) empty_add size)),
          rw (length-append args.util_args batch) (
              AtMost-batch args.maxnum n total max_bytes ready
                (subst (HasRoom args.maxnum) (omega arith) number)),
        )

    -- What is removed, and what is left.
    pub batch-IsSplit :
        (remove_args (with_args ready (new args))).removed
          ++ (remove_args (with_args ready (new args))).left
        ≡ ready
    unfolding remove_args
    batch-IsSplit =
        remove_from-IsSplit (or_default args.maxsize 129024) args.maxnum
          (add_sizes (len args.util) args.util_args) (length args.util_args) ready

    -- If the state is not full, all is removed.
    pub batch-all :
        full (with_args ready (new args)) ≡ false
        → remove_args (with_args ready (new args)) ≡ (record { removed = ready; left = [] })
    unfolding remove_args
    batch-all h =
        let (size, number) = has_room ready h in
        remove_from-all (or_default args.maxsize 129024) args.maxnum
          (add_sizes (len args.util) args.util_args) (length args.util_args) ready size number

  -- If the first argument fits, it is removed.
  pub batch-Fits :
      (arg : Str) (ready : List Str)
      → Fits arg
      → length (remove_args (with_args (arg ∷ ready) (new args))).left ≤ length ready
  unfolding remove_args
  batch-Fits arg ready h =
      remove_from-fits (or_default args.maxsize 129024) args.maxnum
        (add_sizes (len args.util) args.util_args) (length args.util_args) arg ready h

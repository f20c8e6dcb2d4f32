-- ===== src/Process/Xargs/Ending.antt =====
-- The loop `while state.full()` on arguments that fit.
use posixutils_rs.Prelude.{
  ℕ, zero, suc, ◌≤◌, ◌≡◌, refl, sym, ap, ◌∙◌, subst, List, [], ◌∷◌, ◌++◌, map, append_assoc, Bool,
  true, false, Bool-cases, inl, inr, Option, some, length, All, arith,
}
use mathlib.Core.List.{flatten}
use posixutils_rs.Std.Strings.{Str}
use posixutils_rs.Process.Xargs.{Args, ParseState, Split, new, full, remove_args, with_args}
use posixutils_rs.Process.Xargs.Spawning.{Spawned, spawn_all, after?}
use posixutils_rs.Process.Xargs.Limits.{
  Allowed, Fits, Agrees, full-Agrees, remove_args-Agrees, batch-Allowed, batch-IsSplit, batch-Fits,
}

pub All-left {ℓ κ} : {A : Type ℓ} (P : A → Type κ) (xs ys : List A) → All P (xs ++ ys) → All P xs
All-left P [] ys h = tt
All-left P (x ∷ xs) ys (p, h) = (p, All-left P xs ys h)

pub All-right {ℓ κ} : {A : Type ℓ} (P : A → Type κ) (xs ys : List A) → All P (xs ++ ys) → All P ys
All-right P [] ys h = h
All-right P (x ∷ xs) ys (p, h) = All-right P xs ys h

module _ (args : Args) where
  abbrev pub command_line : List Str → List Str
  command_line batch = args.util_args ++ batch

  abbrev pub AllAllowed : List (List Str) → Type 0
  AllAllowed batches = All (λ batch. Allowed args (command_line batch)) batches

  -- The run of `batches`, which leaves the state `st`.
  abbrev pub ran : List (List Str) → ParseState → Spawned
  ran batches st = record { invoked = map command_line batches; state = st; ok = true }

  -- Of the arguments `ready`, batches are run until the state is not full.
  abbrev pub Drains : ParseState → List Str → Option Spawned → Type 0
  Drains st ready result =
      (batches : List (List Str)) × ((left : List Str) × ((result
            ≡ some (ran batches (with_args left st)))
          × (flatten batches ++ left ≡ ready)
          × AllAllowed batches
          × (full (with_args left st) ≡ false)))

module _ (from_utf8_lossy : List ℕ → Str) (exec : Str → List Str → Bool) (args : Args) where
  -- A run of the loop where the state is full.
  pub full_step :
      (fuel : ℕ) (st : ParseState)
      → full st ≡ true
      → exec args.util (command_line args (remove_args st).removed) ≡ true
      → spawn_all from_utf8_lossy exec (suc fuel) args st
        ≡ after?
            (command_line args (remove_args st).removed ∷ [])
            (spawn_all from_utf8_lossy exec fuel args (with_args (remove_args st).left st))
  unfolding spawn_all
  full_step fuel st h e = rw h (rw e refl)

  last_step :
      (fuel : ℕ) (st : ParseState)
      → full st ≡ false
      → spawn_all from_utf8_lossy exec (suc fuel) args st ≡ some (ran args [] st)
  unfolding spawn_all
  last_step fuel st h = rw h refl

  module _ (starts : (line : List Str) → exec args.util line ≡ true)
      (room : full (new args) ≡ false) where
    pub spawn_all-Drains :
        (fuel : ℕ) (st : ParseState) (ready : List Str)
        → Agrees args st
        → length ready ≤ fuel
        → All (Fits args) ready
        → Drains args st ready (spawn_all from_utf8_lossy exec (suc fuel) args (with_args ready st))
    unfolding flatten
    spawn_all-Drains fuel st [] agrees h fits =
        let f = full-Agrees args st agrees [] ∙ room in
        ([], ([], (last_step fuel (with_args [] st) f, refl, tt, f)))
    spawn_all-Drains zero st (arg ∷ ready) agrees h fits = absurd (omega arith)
    spawn_all-Drains (suc fuel) st (arg ∷ ready) agrees h fits =
        elim (Bool-cases (full (with_args (arg ∷ ready) st))) [
          | inr f ↦ (
            [],
            (arg ∷ ready, (last_step (suc fuel) (with_args (arg ∷ ready) st) f, refl, tt, f)),
          )
          | inl f ↦
              let cut = remove_args (with_args (arg ∷ ready) st) in
              let same : cut ≡ remove_args (with_args (arg ∷ ready) (new args)) =
                remove_args-Agrees args st agrees (arg ∷ ready) in
              let whole : cut.removed ++ cut.left ≡ arg ∷ ready =
                rw same (batch-IsSplit args room (arg ∷ ready)) in
              let allowed : Allowed args (command_line args cut.removed) =
                subst (λ (s : Split). Allowed args (command_line args s.removed)) (sym same)
                  (batch-Allowed args room (arg ∷ ready)) in
              let fewer : length cut.left ≤ length ready =
                subst (λ (s : Split). length s.left ≤ length ready) (sym same)
                  (batch-Fits args arg ready fits.0) in
              let (batches, (left, (run, parts, within, ends))) =
                spawn_all-Drains fuel st cut.left agrees (omega arith) (
                  All-right (Fits args) cut.removed cut.left
                    (subst (All (Fits args)) (sym whole) fits)) in
              (
                cut.removed ∷ batches,
                (
                  left,
                  (
                    full_step (suc fuel) (with_args (arg ∷ ready) st) f
                          (starts (command_line args cut.removed))
                        ∙ ap (after? (command_line args cut.removed ∷ [])) run,
                    append_assoc cut.removed (flatten batches) left
                        ∙ ap (λ l. cut.removed ++ l) parts
                        ∙ whole,
                    (allowed, within),
                    ends,
                  ),
                ),
              )
        ]

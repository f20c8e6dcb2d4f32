-- ===== src/Text/Fold/Loop.antt =====
-- The inner loop of `fold_file`: its fuel, and how its invariants are shown.
use posixutils_rs.Prelude.{
  ℕ, zero, suc, ◌+◌, ◌<◌, ◌≤◌, ◌≡◌, refl, sym, subst, List, [], ◌∷◌, ◌++◌, true, false, Option,
  none, some, arith, length, length-append, length-drop, ◌>>=◌, Bool-cases, inl, inr, ◌⊎◌, leb,
  ◌==◌, ==_iff, append-nil, append_assoc,
}
use mathlib.Core.List.{reverse, reverse-cons}
use posixutils_rs.Std.Strings.{Str}
use posixutils_rs.Text.Fold.{
  Args, OutputState, Round, stop, again, new, push, write_line, incr_column, break_line, overflow,
  blank_of, find_blank, find_last_blank, is_empty, round, inner, fold_char, fold_chars, fold_file,
}

length-reverse : {A : Type 0} (xs : List A) → length (reverse xs) ≡ length xs
length-reverse [] = refl
length-reverse (x ∷ xs) =
    rw (reverse-cons x xs) (omega (arith, length-append (reverse xs) (x ∷ []), length-reverse xs))

find_blank_bound : (pos : ℕ) (v : Str) (p : ℕ) → find_blank pos v ≡ some p → p < pos + length v
unfolding find_blank
find_blank_bound pos [] p h = cc
find_blank_bound pos (ch ∷ v) p h = ground (arith, find_blank_bound (suc pos) v p)

-- A blank of a line is in it.
pub blank_of_bound :
    (args : Args) (line : Str) (p : ℕ) → blank_of args line ≡ some p → p < length line
unfolding find_last_blank
blank_of_bound args line p h =
    let r = length-reverse line in ground (arith, find_blank_bound 0 (reverse line) p, r)

-- What holds of a state, if there is one.
abbrev pub Holds : (OutputState → Type 0) → Option OutputState → Type 0
Holds P none = ⊥
Holds P (some st) = P st

-- An end of a round with `Q`, or a next round from a state with `P` and a line shorter than `n`.
abbrev pub RoundHolds : (OutputState → Type 0) → (OutputState → Type 0) → ℕ → Round → Type 0
RoundHolds P Q n (stop st) = Q st
RoundHolds P Q n (again st) = P st × (length st.line < n)

is_empty-cases :
    (l : Str) → ((is_empty l ≡ true) × (l ≡ [])) ⊎ ((is_empty l ≡ false) × (1 ≤ length l))
is_empty-cases [] = inl (refl, refl)
is_empty-cases (x ∷ l) = inr (refl, omega arith)

module _ (P Q : OutputState → Type 0) (args : Args) (ch : ℕ) (st : OutputState) where
  abbrev counted : OutputState
  counted = incr_column args ch st

  overflow-RoundHolds :
      (o : Option ℕ)
      → ((p : ℕ) → o ≡ some p → p < length st.line)
      → ((p : ℕ) → p < length st.line → P (break_line args p counted))
      → (st.line ≡ [] → Q (push ch counted))
      → P (write_line (push 10 counted))
      → RoundHolds P Q (length st.line) (overflow args ch counted o)
  overflow-RoundHolds (some p) bound broken alone full =
      let l = bound p refl in (broken p l, omega (arith, length-drop (p + 1) st.line))
  overflow-RoundHolds none bound broken alone full = elim (is_empty-cases st.line) [
    | inl (e, empty) ↦ rw e (alone empty)
    | inr (e, l) ↦ rw e (full, l)
  ]

  -- The four ways of a round.
  pub round-RoundHolds :
      (leb counted.column args.width ≡ true → Q (push ch counted))
      → ((p : ℕ) → p < length st.line → P (break_line args p counted))
      → (st.line ≡ [] → Q (push ch counted))
      → P (write_line (push 10 counted))
      → RoundHolds P Q (length st.line) (round args ch st)
  unfolding round
  round-RoundHolds fits broken alone full = elim (Bool-cases (leb counted.column args.width)) [
    | inl e ↦ rw e (fits e)
    | inr e ↦ rw e (overflow-RoundHolds _ (blank_of_bound args st.line) broken alone full)
  ]

module _ (P Q : OutputState → Type 0) where
  round_then :
      (r : Round) (n fuel : ℕ) (rest : OutputState → Option OutputState)
      → RoundHolds P Q n r
      → n ≤ fuel
      → ((st : OutputState) → P st → length st.line < fuel → Holds Q (rest st))
      → Holds Q (elim r [ stop st ↦ some st | again st ↦ rest st ])
  round_then (stop st) n fuel rest q h k = q
  round_then (again st) n fuel rest (p, l) h k = k st p (omega arith)

  module _ (args : Args) (ch : ℕ)
      (step : (st : OutputState) → P st → RoundHolds P Q (length st.line) (round args ch st)) where
    inner-Holds :
        (fuel : ℕ) (st : OutputState)
        → P st
        → length st.line < fuel
        → Holds Q (inner args ch fuel st)
    unfolding inner
    inner-Holds zero st p h = absurd (omega arith)
    inner-Holds (suc fuel) st p h =
        round_then (round args ch st) (length st.line) fuel (inner args ch fuel) (step st p)
          (omega arith) (inner-Holds fuel)

    -- The rounds for a character end, in a state with `Q`.
    pub inner_lem : (st : OutputState) → P st → Holds Q (inner args ch (suc (length st.line)) st)
    inner_lem st p = inner-Holds (suc (length st.line)) st p (omega arith)

-- A relation between the bytes read and the state that every byte keeps.
module _ (args : Args) (R : Str → OutputState → Type 0) where
  module _
      (newline : (read : Str) (st : OutputState)
        → R read st
        → R (read ++ 10 ∷ []) (write_line (push 10 st)))
      (step : (read : Str) (ch : ℕ) (st : OutputState)
        → R read st
        → RoundHolds (R read) (R (read ++ ch ∷ [])) (length st.line) (round args ch st)) where
    fold_char-Holds :
        (read : Str) (ch : ℕ) (st : OutputState)
        → R read st
        → Holds (R (read ++ ch ∷ [])) (fold_char args ch st)
    unfolding fold_char
    fold_char-Holds read ch st r = elim (Bool-cases (ch == 10)) [
      | inl e ↦ rw e (
          subst (λ c. R (read ++ c ∷ []) (write_line (push c st))) (sym ((==_iff ch 10).0 e))
            (newline read st r))
      | inr e ↦ rw e (inner_lem (R read) (R (read ++ ch ∷ [])) args ch (step read ch) st r)
    ]

    Holds-bind :
        (P Q : OutputState → Type 0) (o : Option OutputState) (f : OutputState → Option OutputState)
        → Holds P o
        → ((st : OutputState) → P st → Holds Q (f st))
        → Holds Q (o >>= f)
    Holds-bind P Q none f p h = absurd p
    Holds-bind P Q (some st) f p h = h st p

    fold_chars-Holds :
        (read buf : Str) (st : OutputState)
        → R read st
        → Holds (R (read ++ buf)) (fold_chars args buf st)
    unfolding fold_chars
    fold_chars-Holds read [] st r = subst (λ s. R s st) (sym (append-nil read)) r
    fold_chars-Holds read (ch ∷ buf) st r =
        Holds-bind (R (read ++ ch ∷ [])) (R (read ++ ch ∷ buf)) _ _ (fold_char-Holds read ch st r)
          λ st' r'.
            subst (λ s. Holds (R s) (fold_chars args buf st')) (append_assoc read (ch ∷ []) buf)
              (fold_chars-Holds (read ++ ch ∷ []) buf st' r')

    pub fold_file-Holds : (buf : Str) → R [] new → Holds (R buf) (fold_file args buf)
    unfolding fold_file
    fold_file-Holds buf r = fold_chars-Holds [] buf new r

-- ===== src/Text/Fold/Width.antt =====
-- The widths of the lines that `fold -b` writes.
use posixutils_rs.Prelude.{
  ℕ, suc, ◌+◌, ◌≤◌, ◌≡◌, refl, ◌∙◌, List, [], ◌∷◌, ◌++◌, Bool, true, length, length-append,
  length-take, length-drop, All, All-append, Option, none, some, arith, leb, leb→le, take, drop,
}
use posixutils_rs.Std.Strings.{Str}
use posixutils_rs.Text.Fold.{
  Args, OutputState, push, write_line, incr_column, next_column, column_after, break_line,
  fold_file,
}
use posixutils_rs.Text.Fold.Loop.{Holds, round-RoundHolds, fold_file-Holds}

-- A line of at most `width` bytes, and its line feed.
abbrev pub IsWithin : ℕ → Str → Type 0
IsWithin width written = (line : Str) × ((written ≡ line ++ 10 ∷ []) × (length line ≤ width))

-- The column is the length of the line.
abbrev Counts : ℕ → Str → OutputState → Type 0
Counts width read st =
    (st.column ≡ length st.line) × (length st.line ≤ width) × All (IsWithin width) st.written

column_after_bytes : (n : ℕ) (s : Str) → column_after true n s ≡ n + length s
unfolding column_after next_column
column_after_bytes n [] = omega arith
column_after_bytes n (c ∷ s) = column_after_bytes (n + 1) s ∙ omega arith

module _ (spaces : Bool) (width : ℕ) where
  abbrev in_bytes : Args
  in_bytes = record { bytes = true; spaces = spaces; width = width }

  push-Counts :
      (read read' : Str) (c : ℕ) (st : OutputState)
      → Counts width read st
      → suc (length st.line) ≤ width
      → Counts width read' (push c (incr_column in_bytes c st))
  unfolding next_column
  push-Counts read read' c st (e, l, w) h =
      let n = length-append st.line (c ∷ []) in (omega (arith, n), omega (arith, n), w)

  write-All :
      (written : List Str) (line : Str)
      → All (IsWithin width) written
      → length line ≤ width
      → All (IsWithin width) (written ++ (line ++ 10 ∷ []) ∷ [])
  write-All written line h l =
      All-append (IsWithin width) written ((line ++ 10 ∷ []) ∷ []) h ((line, (refl, l)), tt)

  written-Counts :
      (read read' : Str) (st : OutputState)
      → Counts width read st
      → Counts width read' (write_line (push 10 st))
  written-Counts read read' st (e, l, w) = (refl, omega arith, write-All st.written st.line w l)

  broken-Counts :
      (read : Str) (p ch : ℕ) (st : OutputState)
      → Counts width read st
      → Counts width read (break_line in_bytes p (incr_column in_bytes ch st))
  broken-Counts read p ch st (e, l, w) = (
    column_after_bytes 0 (drop (p + 1) st.line) ∙ omega arith,
    omega (arith, length-drop (p + 1) st.line),
    write-All st.written (take (p + 1) st.line) w (omega (arith, length-take (p + 1) st.line)),
  )

  fits-Counts :
      (read read' : Str) (ch : ℕ) (st : OutputState)
      → Counts width read st
      → leb (next_column true ch st.column) width ≡ true
      → Counts width read' (push ch (incr_column in_bytes ch st))
  unfolding next_column
  fits-Counts read read' ch st c k =
      let l = leb→le (st.column + 1) width k in
      let e = c.0 in push-Counts read read' ch st c (omega (arith, l, e))

  Holds-weaken :
      (P Q : OutputState → Type 0) (o : Option OutputState)
      → ((st : OutputState) → P st → Q st)
      → Holds P o
      → Holds Q o
  Holds-weaken P Q none h p = p
  Holds-weaken P Q (some st) h p = h st p

  -- `fold -b`, with `-s` or without, reads every file to its end, and whatever it writes is a line of at most
  -- `width` bytes and its line feed, where `width` is 1 at least.
  pub fold_file_width :
      (buf : Str)
      → 1 ≤ width
      → Holds (λ st. All (IsWithin width) st.written) (fold_file in_bytes buf)
  fold_file_width buf h =
      Holds-weaken (Counts width buf) _ _ (λ st c. c.2)
        (fold_file-Holds in_bytes (Counts width)
          (λ read st. written-Counts read (read ++ 10 ∷ []) st)
          (λ read ch st c.
            round-RoundHolds (Counts width read) (Counts width (read ++ ch ∷ [])) in_bytes ch st
              (fits-Counts read (read ++ ch ∷ []) ch st c) (λ p _. broken-Counts read p ch st c)
              (λ e. push-Counts read (read ++ ch ∷ []) ch st c (rw e h))
              (written-Counts read read st c))
          buf (refl, omega arith, tt))

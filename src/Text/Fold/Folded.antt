-- ===== src/Text/Fold/Folded.antt =====
-- `fold` changes nothing but the places of the line feeds.
use posixutils_rs.Prelude.{
  ℕ, ◌+◌, ◌≡◌, refl, sym, ap, ◌∙◌, subst, List, [], ◌∷◌, ◌++◌, ◌⊎◌, inl, inr, append-nil,
  append_assoc, take, drop, take-append-drop,
}
use mathlib.Core.List.{flatten}
use posixutils_rs.Std.Strings.{Str}
use posixutils_rs.Text.Fold.{
  Args, OutputState, push, write_line, incr_column, break_line, fold_file,
}
use posixutils_rs.Text.Fold.Loop.{Holds, round-RoundHolds, fold_file-Holds}

-- `t` is `s` with line feeds put in.
abbrev pub Folded : Str → Str → Type 0
Folded s [] = s ≡ []
Folded s (c ∷ t) = ((c ≡ 10) × Folded s t) ⊎ ((s' : Str) × (s ≡ c ∷ s') × Folded s' t)

Folded-break : (s t u : Str) → Folded s (t ++ u) → Folded s (t ++ 10 ∷ u)
Folded-break s [] u h = inl (refl, h)
Folded-break s (c ∷ t) u (inl (e, h)) = inl (e, Folded-break s t u h)
Folded-break s (c ∷ t) u (inr (s', e, h)) = inr (s', e, Folded-break s' t u h)

Folded-snoc : (s t : Str) (c : ℕ) → Folded s t → Folded (s ++ c ∷ []) (t ++ c ∷ [])
Folded-snoc s [] c h = inr ([], ap (λ l. l ++ c ∷ []) h, refl)
Folded-snoc s (d ∷ t) c (inl (e, h)) = inl (e, Folded-snoc s t c h)
Folded-snoc s (d ∷ t) c (inr (s', e, h)) =
    inr (s' ++ c ∷ [], ap (λ l. l ++ c ∷ []) e, Folded-snoc s' t c h)

flatten-snoc : (ls : List Str) (l : Str) → flatten (ls ++ l ∷ []) ≡ flatten ls ++ l
unfolding flatten
flatten-snoc [] l = append-nil l
flatten-snoc (k ∷ ls) l = ap (λ x. k ++ x) (flatten-snoc ls l) ∙ sym (append_assoc k (flatten ls) l)

-- The bytes that are written, and those that wait.
abbrev pub output : OutputState → Str
output st = flatten st.written ++ st.line

abbrev FoldedState : Str → OutputState → Type 0
FoldedState read st = Folded read (output st)

push-Folded :
    (read : Str) (c : ℕ) (st : OutputState)
    → FoldedState read st
    → FoldedState (read ++ c ∷ []) (push c st)
push-Folded read c st h =
    subst (Folded (read ++ c ∷ [])) (append_assoc (flatten st.written) st.line (c ∷ []))
      (Folded-snoc read (output st) c h)

write_line-output : (st : OutputState) → output (write_line st) ≡ output st
write_line-output st = append-nil _ ∙ flatten-snoc st.written st.line

broken-output :
    (written : List Str) (t u : Str)
    → flatten (written ++ (t ++ 10 ∷ []) ∷ []) ++ u ≡ (flatten written ++ t) ++ 10 ∷ u
broken-output written t u =
    ap (λ x. x ++ u) (flatten-snoc written (t ++ 10 ∷ []))
    ∙ append_assoc (flatten written) (t ++ 10 ∷ []) u
    ∙ ap (λ x. flatten written ++ x) (append_assoc t (10 ∷ []) u)
    ∙ sym (append_assoc (flatten written) t (10 ∷ u))

whole-output :
    (written : List Str) (line : Str) (n : ℕ)
    → flatten written ++ line ≡ (flatten written ++ take n line) ++ drop n line
whole-output written line n =
    ap (λ x. flatten written ++ x) (sym (take-append-drop n line))
    ∙ sym (append_assoc (flatten written) (take n line) (drop n line))

break_line-Folded :
    (args : Args) (read : Str) (p : ℕ) (st : OutputState)
    → FoldedState read st
    → FoldedState read (break_line args p st)
break_line-Folded args read p st h =
    subst (Folded read)
      (sym (broken-output st.written (take (p + 1) st.line) (drop (p + 1) st.line)))
      (Folded-break read (flatten st.written ++ take (p + 1) st.line) (drop (p + 1) st.line)
        (subst (Folded read) (whole-output st.written st.line (p + 1)) h))

full-Folded :
    (read : Str) (st : OutputState)
    → FoldedState read st
    → FoldedState read (write_line (push 10 st))
full-Folded read st h =
    subst (Folded read)
      (append_assoc (flatten st.written) st.line (10 ∷ []) ∙ sym (write_line-output (push 10 st)))
      (Folded-break read (output st) [] (subst (Folded read) (sym (append-nil (output st))) h))

newline-Folded :
    (read : Str) (st : OutputState)
    → FoldedState read st
    → FoldedState (read ++ 10 ∷ []) (write_line (push 10 st))
newline-Folded read st h =
    subst (Folded (read ++ 10 ∷ [])) (sym (write_line-output (push 10 st)))
      (push-Folded read 10 st h)

-- `fold` reads every file to its end, with any options. What it has written then, with the line that it keeps, is the
-- file with line feeds put in: no byte is lost, changed or moved.
pub fold_file-Folded :
    (args : Args) (buf : Str) → Holds (λ st. Folded buf (output st)) (fold_file args buf)
unfolding flatten
fold_file-Folded args buf =
    fold_file-Holds args FoldedState newline-Folded
      (λ read ch st h.
        round-RoundHolds (FoldedState read) (FoldedState (read ++ ch ∷ [])) args ch st
          (λ _. push-Folded read ch (incr_column args ch st) h)
          (λ p _. break_line-Folded args read p (incr_column args ch st) h)
          (λ _. push-Folded read ch (incr_column args ch st) h)
          (full-Folded read (incr_column args ch st) h))
      buf refl

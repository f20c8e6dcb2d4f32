-- ===== src/Text/Expand/Plain.antt =====
-- What `expand` makes of a file under one width of tabs.
use posixutils_rs.Prelude.{
  ℕ, suc, ◌+◌, ◌-◌, ◌%◌, ◌≤◌, ◌≡◌, ◌≢◌, ◌⊎◌, inl, inr, refl, sym, ap, ◌∙◌, subst, [], ◌∷◌, ◌++◌,
  append_assoc, append-nil, false, ◌||◌, Bool-cases, ==_iff, some, ◌==◌, ltb, if◌then◌else◌, arith,
}
use posixutils_rs.Std.Strings.{Str}
use posixutils_rs.Text.Expand.{
  State, start, emit, uni_stop, tab, expand_byte, expand_bytes, expand_file,
}
use posixutils_rs.Text.Expand.Spaces.{spaces, tab-spaces}

-- The column behind a byte that is no tab.
abbrev pub column_behind : ℕ → ℕ → ℕ
column_behind byte column =
    if byte == 8
    then if ltb 1 column then column - 1 else column
    else if byte == 13 || byte == 10
    then 1
    else column + 1

-- `t` is `s`, which begins at `column`, where every tab is replaced by spaces: one at least and `n` at most, up to a column behind a
-- multiple of `n`.
abbrev pub Expanded : ℕ → ℕ → Str → Str → Type 0
Expanded n column [] t = t ≡ []
Expanded n column (byte ∷ s) t =
    ((byte ≡ 9)
      × ((e : ℕ) × ((t' : Str) × ((suc e ≤ n)
              × ((column + e) % n ≡ 0)
              × (t ≡ spaces (suc e) ++ t')
              × Expanded n (column + e + 1) s t'))))
    ⊎ ((byte ≢ 9) × ((t' : Str) × ((t ≡ byte ∷ t') × Expanded n (column_behind byte column) s t')))

pub tab_step :
    (n : ℕ) (st : State) → expand_byte (uni_stop (suc n)) 9 st ≡ tab (uni_stop (suc n)) st
unfolding expand_byte
tab_step n st = refl

pub byte_step :
    (n byte : ℕ) (st : State)
    → (byte == 9) ≡ false
    → expand_byte (uni_stop (suc n)) byte st ≡ some (emit byte (column_behind byte st.column) st)
unfolding expand_byte
byte_step n byte st h = ground arith

no_tab : (byte : ℕ) → (byte == 9) ≡ false → byte ≢ 9
no_tab byte e = ground arith

-- What `buf` adds to the output of `st`.
abbrev Adds : ℕ → Str → State → Type 0
Adds n buf st =
    (t : Str) × ((st' : State) × ((expand_bytes (uni_stop (suc n)) buf st ≡ some st')
        × (st'.out ≡ st.out ++ t)
        × Expanded (suc n) st.column buf t))

adds : (n : ℕ) (buf : Str) (st : State) → Adds n buf st
unfolding expand_bytes
adds n [] st = ([], (st, (refl, sym (append-nil st.out), refl)))
adds n (byte ∷ buf) st = elim (Bool-cases (byte == 9)) [
  | inl e ↦
      let is_tab : byte ≡ 9 = (==_iff byte 9).0 e in
      let (k, (st1, (run, bound, multiple, column, out))) = tab-spaces n st in
      let (t, (st', (rest, out', expanded))) = adds n buf st1 in
      (
        spaces (suc k) ++ t,
        (
          st',
          (
            rw is_tab (rw (tab_step n st) (rw run rest)),
            out' ∙ ap (λ o. o ++ t) out ∙ append_assoc st.out (spaces (suc k)) t,
            inl (
              is_tab,
              (
                k,
                (
                  t,
                  (
                    omega (arith, bound),
                    multiple,
                    refl,
                    subst (λ c. Expanded (suc n) c buf t) column expanded,
                  ),
                ),
              ),
            ),
          ),
        ),
      )
  | inr e ↦
      let st1 : State = emit byte (column_behind byte st.column) st in
      let (t, (st', (rest, out, expanded))) = adds n buf st1 in
      (
        byte ∷ t,
        (
          st',
          (
            rw (byte_step n byte st e) rest,
            out ∙ append_assoc st.out (byte ∷ []) t,
            inr (no_tab byte e, (t, (refl, expanded))),
          ),
        ),
      )
]

-- With one width of tabs, `expand` reads every file to its end, and writes it with every tab replaced by the spaces up to the next
-- column behind a multiple of the width; all other bytes stay, and the backspace, the carriage return and the line feed set the column.
pub expand_file-Expanded :
    (n : ℕ) (buf : Str)
    → (out : Str) × ((expand_file (uni_stop (suc n)) buf ≡ some out) × Expanded (suc n) 1 buf out)
unfolding expand_file
expand_file-Expanded n buf =
    let (t, (st, (run, out, expanded))) = adds n buf start in (t, (rw run (ap some out), expanded))

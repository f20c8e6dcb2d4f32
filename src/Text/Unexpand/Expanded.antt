-- ===== src/Text/Unexpand/Expanded.antt =====
-- `expand` on a line that `unexpand` has converted.
use posixutils_rs.Prelude.{
  ℕ, zero, suc, ◌+◌, ◌-◌, ◌%◌, ◌≤◌, ◌≡◌, refl, sym, ap, ◌∙◌, [], ◌∷◌, ◌++◌, append_assoc,
  append-nil, Bool-cases, inl, inr, ltb, leb, ==_iff, ◌==◌, if◌then◌else◌, Option, some, ◌>>=◌,
  All-append, arith,
}
use native.Mathlib.Nat.{mod-eq_of_lt}
use posixutils_rs.Std.Strings.{Str, Free}
use posixutils_rs.Text.Expand.{State, start, emit, uni_stop, expand_bytes, expand_file}
use posixutils_rs.Text.Expand.Spaces.{spaces, tab-spaces}
use posixutils_rs.Text.Expand.Plain.{column_behind, byte_step, tab_step}
use posixutils_rs.Text.Unexpand.{space_count, skip_spaces, fill_to, fill, convert_leading_blanks}

spaces-add : (m n : ℕ) → spaces m ++ spaces n ≡ spaces (m + n)
spaces-add zero n = ap spaces (omega arith)
spaces-add (suc m) n =
    let e : suc (m + n) ≡ suc m + n = omega arith in ap (λ s. 32 ∷ s) (spaces-add m n) ∙ ap spaces e

line-spaces : (line : Str) → spaces (space_count line) ++ skip_spaces line ≡ line
unfolding space_count skip_spaces
line-spaces [] = refl
line-spaces (ch ∷ line) = elim (Bool-cases (ch == b' ')) [
  | inl e ↦
      let more : space_count line + 1 ≡ suc (space_count line) = omega arith in
      rw e (
        ap (λ n. spaces n ++ skip_spaces line) more
        ∙ ap (λ s. 32 ∷ s) (line-spaces line)
        ∙ ap (λ c. c ∷ line) (sym ((==_iff ch b' ').0 e)))
  | inr e ↦ rw e refl
]

-- What `expand` adds for bytes without a tab.
plain-out :
    (n : ℕ) (buf : Str) (st : State)
    → Free 9 buf
    → (st' : State) × ((expand_bytes (uni_stop (suc n)) buf st ≡ some st')
        × (st'.out ≡ st.out ++ buf))
unfolding expand_bytes
plain-out n [] st h = (st, (refl, sym (append-nil st.out)))
plain-out n (byte ∷ buf) st (h, hs) =
    let st1 = emit byte (column_behind byte st.column) st in
    let (st', (run, out)) = plain-out n buf st1 hs in
    let step = byte_step n byte st (ground arith) in
    (
      st',
      (
        ap (λ (o : Option State). o >>= λ s. expand_bytes (uni_stop (suc n)) buf s) step ∙ run,
        out ∙ append_assoc st.out (byte ∷ []) buf,
      ),
    )

whole_width : (n e : ℕ) → e ≤ n → (1 + e) % suc n ≡ 0 → e ≡ n
whole_width n e h m = elim (Bool-cases (ltb e n)) [
  | inl less ↦
      let small : (1 + e) % suc n ≡ 1 + e = mod-eq_of_lt (ground arith) in absurd (omega arith)
  | inr not_less ↦ ground arith
]

-- A tab at the beginning of a line, and bytes without a tab.
tab-out :
    (n : ℕ) (buf : Str)
    → Free 9 buf
    → expand_file (uni_stop (suc n)) (9 ∷ buf) ≡ some (spaces (suc n) ++ buf)
unfolding expand_file expand_bytes
tab-out n buf h =
    let (e, (st1, (run, bound, multiple, column, out))) = tab-spaces n start in
    let width : e ≡ n = whole_width n e bound multiple in
    let (st', (run', out')) = plain-out n buf st1 h in
    ap
      (λ (o : Option State). (o >>= λ s. expand_bytes (uni_stop (suc n)) buf s) >>= λ s. some s.out)
      (tab_step n start ∙ run)
    ∙ ap (λ (o : Option State). o >>= λ s. some s.out) run'
    ∙ ap some (out' ∙ ap (λ l. l ++ buf) (out ∙ ap (λ k. spaces (suc k)) width))

no-tab-out : (n : ℕ) (buf : Str) → Free 9 buf → expand_file (uni_stop (suc n)) buf ≡ some buf
unfolding expand_file
no-tab-out n buf h =
    let (st', (run, out)) = plain-out n buf start h in
    ap (λ (o : Option State). o >>= λ s. some s.out) run ∙ ap some out

abbrev converted : ℕ → ℕ → Str → Str
converted n k rest = if leb (suc n) k then 9 ∷ (spaces (k - suc n) ++ rest) else spaces k ++ rest

convert_leading_blanks-one :
    (line : Str) (n : ℕ)
    → convert_leading_blanks line (suc n ∷ []) ≡ converted n (space_count line) (skip_spaces line)
unfolding convert_leading_blanks fill fill_to
convert_leading_blanks-one line n = ground arith

Free-spaces : (k : ℕ) → Free 9 (spaces k)
Free-spaces zero = tt
Free-spaces (suc k) = ((λ e. omega arith), Free-spaces k)

Free-skip_spaces : (line : Str) → Free 9 line → Free 9 (skip_spaces line)
unfolding skip_spaces
Free-skip_spaces [] h = tt
Free-skip_spaces (ch ∷ line) h = elim (Bool-cases (ch == b' ')) [
  | inl e ↦ rw e (Free-skip_spaces line h.1)
  | inr e ↦ rw e h
]

-- With one tab stop, which is not 0, `expand` at that width gives back a line without tabs of which `unexpand` has
-- converted the blanks in front.
pub expand_file-convert_leading_blanks :
    (n : ℕ) (line : Str)
    → Free 9 line
    → expand_file (uni_stop (suc n)) (convert_leading_blanks line (suc n ∷ [])) ≡ some line
expand_file-convert_leading_blanks n line h =
    let k = space_count line in
    let rest = skip_spaces line in
    ap (expand_file (uni_stop (suc n))) (convert_leading_blanks-one line n)
    ∙ elim (Bool-cases (leb (suc n) k)) [
      | inl e ↦
          let whole : suc n + (k - suc n) ≡ k = ground arith in
          rw e (
            tab-out n (spaces (k - suc n) ++ rest) (
              All-append _ (spaces (k - suc n)) rest (Free-spaces (k - suc n))
                (Free-skip_spaces line h))
            ∙ ap some (
                sym (append_assoc (spaces (suc n)) (spaces (k - suc n)) rest)
                ∙ ap (λ l. l ++ rest) (spaces-add (suc n) (k - suc n) ∙ ap spaces whole)
                ∙ line-spaces line))
      | inr e ↦ rw e (
          no-tab-out n (spaces k ++ rest)
            (All-append _ (spaces k) rest (Free-spaces k) (Free-skip_spaces line h))
          ∙ ap some (line-spaces line))
    ]

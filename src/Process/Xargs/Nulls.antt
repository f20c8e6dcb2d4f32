-- ===== src/Process/Xargs/Nulls.antt =====
-- Input that null bytes divide, in pieces.
use posixutils_rs.Prelude.{
  ℕ, ◌≡◌, refl, sym, ap, ◌∙◌, List, [], ◌∷◌, ◌++◌, map, append-nil, append_assoc, true, false,
  Bool-cases, inl, inr, ◌==◌, if◌then◌else◌, All, All-append,
}
use mathlib.Core.List.{flatten}
use posixutils_rs.Std.Strings.{Str}
use posixutils_rs.Process.Xargs.{ParseState, cut_nulls, push_parts, parse_buf_null, with_args}

abbrev pub with_slop : List ℕ → ParseState → ParseState
with_slop slop st = record st { null_slop = slop }

cut_nulls-cons :
    (part buf : List ℕ)
    → (first : List ℕ) × ((more : List (List ℕ)) × (cut_nulls part buf ≡ first ∷ more))
unfolding cut_nulls
cut_nulls-cons part [] = (part, ([], refl))
cut_nulls-cons part (b ∷ buf) = elim (Bool-cases (b == 0)) [
  | inl e ↦ (
    part,
    (
      cut_nulls [] buf,
      ap (λ c. if c then part ∷ cut_nulls [] buf else cut_nulls (part ++ b ∷ []) buf) e,
    ),
  )
  | inr e ↦
      let (first, (more, e')) = cut_nulls-cons (part ++ b ∷ []) buf in
      (
        first,
        (
          more,
          ap (λ c. if c then part ∷ cut_nulls [] buf else cut_nulls (part ++ b ∷ []) buf) e ∙ e',
        ),
      )
]

-- The bytes before a null, and another byte.
at_null :
    (part : List ℕ) (b : ℕ) (buf : List ℕ)
    → (b == 0) ≡ true
    → cut_nulls part (b ∷ buf) ≡ part ∷ cut_nulls [] buf
unfolding cut_nulls
at_null part b buf e =
    ap (λ c. if c then part ∷ cut_nulls [] buf else cut_nulls (part ++ b ∷ []) buf) e

at_other :
    (part : List ℕ) (b : ℕ) (buf : List ℕ)
    → (b == 0) ≡ false
    → cut_nulls part (b ∷ buf) ≡ cut_nulls (part ++ b ∷ []) buf
unfolding cut_nulls
at_other part b buf e =
    ap (λ c. if c then part ∷ cut_nulls [] buf else cut_nulls (part ++ b ∷ []) buf) e

abbrev pub IsFree : List ℕ → Type 0
IsFree part = All (λ b. (b == 0) ≡ false) part

abbrev pub printed : List ℕ → List ℕ
printed part = part ++ 0 ∷ []

cut_nulls-IsFree :
    (part more buf : List ℕ)
    → IsFree more
    → cut_nulls part (more ++ buf) ≡ cut_nulls (part ++ more) buf
cut_nulls-IsFree part [] buf h = ap (λ l. cut_nulls l buf) (sym (append-nil part))
cut_nulls-IsFree part (b ∷ more) buf (e, h) =
    at_other part b (more ++ buf) e
    ∙ cut_nulls-IsFree (part ++ b ∷ []) more buf h
    ∙ ap (λ l. cut_nulls l buf) (append_assoc part (b ∷ []) more)

module _ (from_utf8_lossy : List ℕ → Str) where
  abbrev push_part : List ℕ → ParseState → ParseState
  push_part part st = with_args (st.args ++ from_utf8_lossy part ∷ []) st

  push_parts-part :
      (st : ParseState) (part part' : List ℕ) (buf : List ℕ)
      → push_parts from_utf8_lossy st (part ∷ cut_nulls part' buf)
        ≡ push_parts from_utf8_lossy (push_part part st) (cut_nulls part' buf)
  unfolding push_parts
  push_parts-part st part part' buf =
      let (first, (more, e)) = cut_nulls-cons part' buf in
      ap (λ parts. push_parts from_utf8_lossy st (part ∷ parts)) e
      ∙ ap (λ parts. push_parts from_utf8_lossy (push_part part st) parts) (sym e)

  push_parts-slop :
      (st : ParseState) (slop first : List ℕ) (more : List (List ℕ))
      → push_parts from_utf8_lossy (with_slop slop st) (first ∷ more)
        ≡ push_parts from_utf8_lossy st (first ∷ more)
  unfolding push_parts
  push_parts-slop st slop first [] = refl
  push_parts-slop st slop first (next ∷ more) = push_parts-slop (push_part first st) slop next more

  -- A slop from before is lost where `push_parts` sets a new one.
  slop_lost :
      (st : ParseState) (slop part : List ℕ) (buf : List ℕ)
      → push_parts from_utf8_lossy (with_slop slop st) (cut_nulls part buf)
        ≡ push_parts from_utf8_lossy st (cut_nulls part buf)
  slop_lost st slop part buf =
      let (first, (more, e)) = cut_nulls-cons part buf in
      ap (λ parts. push_parts from_utf8_lossy (with_slop slop st) parts) e
      ∙ push_parts-slop st slop first more
      ∙ ap (λ parts. push_parts from_utf8_lossy st parts) (sym e)

  abbrev goes_on : List ℕ → ParseState → ParseState
  goes_on buf st = push_parts from_utf8_lossy st (cut_nulls [] (st.null_slop ++ buf))

  -- What is read next goes on from the state that the bytes before leave.
  push_parts-append :
      (buf : List ℕ) (st : ParseState) (part buf' : List ℕ)
      → IsFree part
      → goes_on buf' (push_parts from_utf8_lossy st (cut_nulls part buf))
        ≡ push_parts from_utf8_lossy st (cut_nulls part (buf ++ buf'))
  unfolding push_parts cut_nulls
  push_parts-append [] st part buf' h =
      slop_lost st part [] (part ++ buf')
      ∙ ap (λ parts. push_parts from_utf8_lossy st parts) (cut_nulls-IsFree [] part buf' h)
  push_parts-append (b ∷ buf) st part buf' h = elim (Bool-cases (b == 0)) [
    | inl e ↦
        ap (λ parts. goes_on buf' (push_parts from_utf8_lossy st parts)) (at_null part b buf e)
        ∙ ap (goes_on buf') (push_parts-part st part [] buf)
        ∙ push_parts-append buf (push_part part st) [] buf' tt
        ∙ sym (push_parts-part st part [] (buf ++ buf'))
        ∙ ap (λ parts. push_parts from_utf8_lossy st parts) (sym (at_null part b (buf ++ buf') e))
    | inr e ↦
        ap (λ parts. goes_on buf' (push_parts from_utf8_lossy st parts)) (at_other part b buf e)
        ∙ push_parts-append buf st (part ++ b ∷ []) buf' (All-append _ part (b ∷ []) h (e, tt))
        ∙ ap (λ parts. push_parts from_utf8_lossy st parts) (sym (at_other part b (buf ++ buf') e))
  ]

  push_parts-skip :
      (st : ParseState) (parts : List (List ℕ))
      → (push_parts from_utf8_lossy st parts).skip_remainder ≡ st.skip_remainder
  unfolding push_parts
  push_parts-skip st [] = refl
  push_parts-skip st (part ∷ []) = refl
  push_parts-skip st (part ∷ next ∷ parts) = push_parts-skip (push_part part st) (next ∷ parts)

  parse_buf_null-skips :
      (st : ParseState) (buf : List ℕ)
      → st.skip_remainder ≡ true
      → parse_buf_null from_utf8_lossy st buf ≡ st
  unfolding parse_buf_null
  parse_buf_null-skips st buf e = ap (λ c. if c then st else goes_on buf st) e

  parse_buf_null-reads :
      (st : ParseState) (buf : List ℕ)
      → st.skip_remainder ≡ false
      → parse_buf_null from_utf8_lossy st buf ≡ goes_on buf st
  unfolding parse_buf_null
  parse_buf_null-reads st buf e = ap (λ c. if c then st else goes_on buf st) e

  -- With `-0`, two reads after each other leave the state that the read of all their bytes leaves.
  pub parse_buf_null-append :
      (st : ParseState) (buf buf' : List ℕ)
      → parse_buf_null from_utf8_lossy (parse_buf_null from_utf8_lossy st buf) buf'
        ≡ parse_buf_null from_utf8_lossy st (buf ++ buf')
  parse_buf_null-append st buf buf' = elim (Bool-cases st.skip_remainder) [
    | inl e ↦
        ap (λ st'. parse_buf_null from_utf8_lossy st' buf') (parse_buf_null-skips st buf e)
        ∙ parse_buf_null-skips st buf' e
        ∙ sym (parse_buf_null-skips st (buf ++ buf') e)
    | inr e ↦
        ap (λ st'. parse_buf_null from_utf8_lossy st' buf') (parse_buf_null-reads st buf e)
        ∙ parse_buf_null-reads (goes_on buf st) buf'
            (push_parts-skip st (cut_nulls [] (st.null_slop ++ buf)) ∙ e)
        ∙ push_parts-append (st.null_slop ++ buf) st [] buf' tt
        ∙ ap (λ l. push_parts from_utf8_lossy st (cut_nulls [] l))
            (append_assoc st.null_slop buf buf')
        ∙ sym (parse_buf_null-reads st (buf ++ buf') e)
  ]

  whole_part :
      (s : Str) (st : ParseState) (part rest : List ℕ)
      → IsFree s
      → push_parts from_utf8_lossy st (cut_nulls part (s ++ 0 ∷ rest))
        ≡ push_parts from_utf8_lossy (push_part (part ++ s) st) (cut_nulls [] rest)
  whole_part s st part rest h =
      ap (λ parts. push_parts from_utf8_lossy st parts)
        (cut_nulls-IsFree part s (0 ∷ rest) h ∙ at_null (part ++ s) 0 rest refl)
      ∙ push_parts-part st (part ++ s) [] rest

  push_parts-printed :
      (parts : List (List ℕ)) (st : ParseState)
      → All IsFree parts
      → push_parts from_utf8_lossy st (cut_nulls [] (flatten (map printed parts)))
        ≡ with_slop [] (with_args (st.args ++ map from_utf8_lossy parts) st)
  unfolding push_parts cut_nulls flatten
  push_parts-printed [] st h =
      ap (λ args. with_slop [] (with_args args st)) (sym (append-nil st.args))
  push_parts-printed (part ∷ parts) st (h, hs) =
      ap (λ l. push_parts from_utf8_lossy st (cut_nulls [] l))
        (append_assoc part (0 ∷ []) (flatten (map printed parts)))
      ∙ whole_part part st [] (flatten (map printed parts)) h
      ∙ push_parts-printed parts (push_part part st) hs
      ∙ ap (λ args. with_slop [] (with_args args st))
          (append_assoc st.args (from_utf8_lossy part ∷ []) (map from_utf8_lossy parts))

  -- With `-0`, parts without a null byte, each printed with a null byte behind it, become arguments, and no byte is kept,
  -- if none was kept before and an `eofstr` has not ended the input.
  pub parse_buf_null-printed :
      (st : ParseState) (parts : List (List ℕ))
      → st.skip_remainder ≡ false
      → st.null_slop ≡ []
      → All IsFree parts
      → parse_buf_null from_utf8_lossy st (flatten (map printed parts))
        ≡ with_slop [] (with_args (st.args ++ map from_utf8_lossy parts) st)
  parse_buf_null-printed st parts e e' h =
      parse_buf_null-reads st (flatten (map printed parts)) e
      ∙ ap
          (λ (slop : List ℕ).
            push_parts from_utf8_lossy st (cut_nulls [] (slop ++ flatten (map printed parts))))
          e'
      ∙ push_parts-printed parts st h

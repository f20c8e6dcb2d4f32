-- ===== src/File/Split/Pieces.antt =====
-- The pieces and the bytes that they are made of.
use posixutils_rs.Prelude.{
  ℕ, zero, suc, ◌+◌, ◌-◌, ◌<◌, ◌≤◌, ◌≡◌, ◌⊎◌, refl, sym, ap, ◌∙◌, subst, List, [], ◌∷◌, ◌++◌, map,
  append-nil, append_assoc, Bool-cases, Option-cases, inl, inr, le→leb, ◌==◌, ==_iff, Option, none,
  some, ◌>>=◌, length, length-append, length-take, length-drop, take, drop, take-append-drop, All,
  All-append, arith,
}
use Prim.Native.Nat.{min}
use mathlib.Core.List.{flatten}
use posixutils_rs.Std.Strings.{Str}
use posixutils_rs.File.Split.{
  OutFile, OutputState, Outcome, next, opened, open_output, close_output, incr_output, write,
  write_to, open_new, output_bytes, output_reads,
}

abbrev content_of : Option OutFile → List ℕ
content_of none = []
content_of (some f) = f.content

-- The bytes that have been written.
abbrev pub contents : OutputState → List ℕ
contents st = flatten (map (λ (f : OutFile). f.content) st.closed) ++ content_of st.outf

abbrev pub IsPiece : ℕ → OutFile → Type 0
IsPiece boundary f = length f.content ≡ boundary

-- The closed files are full, and the open one, of which `count` is the size, is not.
abbrev pub Good : OutputState → Type 0
Good st =
    All (IsPiece st.boundary) st.closed
    × (st.count ≡ length (content_of st.outf))
    × (st.count < st.boundary)

-- The outcome of a part of the program that has read `buf` in the state `st`.
abbrev pub Wrote : OutputState → List ℕ → Outcome → Type 0
Wrote st buf (Outcome.done st') =
    Good st' × (contents st' ≡ contents st ++ buf) × (st'.boundary ≡ st.boundary)
Wrote st buf (Outcome.exhausted st') =
    Good st'
    × ((rest : List ℕ) × (contents st' ++ rest ≡ contents st ++ buf))
    × (st'.boundary ≡ st.boundary)

-- An open file, or none left.
Opens : OutputState → Outcome → Type 0
Opens st (Outcome.done st') =
    Good st'
    × (contents st' ≡ contents st)
    × (st'.boundary ≡ st.boundary)
    × ((f : OutFile) × (st'.outf ≡ some f))
Opens st (Outcome.exhausted st') =
    Good st' × (contents st' ≡ contents st) × (st'.boundary ≡ st.boundary)

opened-Opens :
    (st : OutputState) (p : Option Str × Str) → Good st → st.outf ≡ none → Opens st (opened st p)
unfolding Opens
opened-Opens st (none, suffix) good e = (good, refl, refl)
opened-Opens st (some s, suffix) (pieces, count, less) e = (
  (pieces, count ∙ ap (λ o. length (content_of o)) e, less),
  ap (λ o. flatten (map (λ (f : OutFile). f.content) st.closed) ++ content_of o) (sym e),
  refl,
  (record { name = st.prefix ++ s; content = [] }, refl),
)

open_output-Opens : (st : OutputState) → Good st → Opens st (open_output st)
unfolding open_output Opens
open_output-Opens st good = elim (Option-cases st.outf) [
  | inl e ↦ subst (Opens st) (sym (ap (open_new st) e)) (opened-Opens st (next st.suffix) good e)
  | inr (f, e) ↦ subst (Opens st) (sym (ap (open_new st) e)) (good, refl, refl, (f, e))
]

flatten-snoc :
    (closed : List OutFile) (f : OutFile)
    → flatten (map (λ (f : OutFile). f.content) (closed ++ f ∷ []))
      ≡ flatten (map (λ (f : OutFile). f.content) closed) ++ f.content
unfolding flatten
flatten-snoc [] f = append-nil f.content
flatten-snoc (g ∷ closed) f =
    ap (λ l. g.content ++ l) (flatten-snoc closed f) ∙ sym (append_assoc g.content _ f.content)

-- A file is closed when it is full.
Counted : ℕ → OutputState → OutFile → Type 0
Counted n st f =
    (st' : OutputState) × ((incr_output n (record st { outf = some f }) ≡ some st')
      × Good st'
      × (contents st' ≡ contents (record st { outf = some f }))
      × (st'.boundary ≡ st.boundary))

incr_output-Counted :
    (n : ℕ) (st : OutputState) (f : OutFile)
    → All (IsPiece st.boundary) st.closed
    → st.count + n ≡ length f.content
    → st.count + n ≤ st.boundary
    → 0 < st.boundary
    → Counted n st f
unfolding Counted incr_output close_output
incr_output-Counted n st f pieces count bound pos =
    elim (Bool-cases (st.count + n == st.boundary)) [
      | inl e ↦
          let full = (==_iff (st.count + n) st.boundary).0 e in
          (
            record st { outf = none; count = 0; closed = st.closed ++ f ∷ [] },
            (
              rw (le→leb (st.count + n) st.boundary bound) (rw e refl),
              (All-append _ st.closed (f ∷ []) pieces (sym count ∙ full, tt), refl, pos),
              append-nil _ ∙ flatten-snoc st.closed f,
              refl,
            ),
          )
      | inr e ↦ (
        record st { outf = some f; count = st.count + n },
        (
          rw (le→leb (st.count + n) st.boundary bound) (rw e refl),
          (pieces, count, ground arith),
          refl,
          refl,
        ),
      )
    ]

abbrev wlen : OutputState → List ℕ → ℕ
wlen st buf = min (st.boundary - st.count) (length buf)

-- One round on an open file.
Rounds : OutputState → List ℕ → Type 0
Rounds st buf =
    (st' : OutputState) × (((write (take (wlen st buf) buf) st >>= λ st''.
    incr_output (wlen st buf) st'')
        ≡ some st')
      × Good st'
      × (contents st' ≡ contents st ++ take (wlen st buf) buf)
      × (st'.boundary ≡ st.boundary))

round-Rounds :
    (st : OutputState) (f : OutFile) (buf : List ℕ) → Good st → st.outf ≡ some f → Rounds st buf
unfolding Rounds write Counted
round-Rounds st f buf (pieces, count, less) e =
    let chunk = take (wlen st buf) buf in
    let f' : OutFile = record f { content = f.content ++ chunk } in
    let size : st.count ≡ length f.content = count ∙ ap (λ o. length (content_of o)) e in
    let (st', (run, good, same, boundary)) =
      incr_output-Counted (wlen st buf) st f' pieces
        (omega (arith, length-append f.content chunk, length-take (wlen st buf) buf)) (omega arith)
        (omega arith) in
    (
      st',
      (
        ap (λ o. write_to chunk st o >>= λ st''. incr_output (wlen st buf) st'') e ∙ run,
        good,
        same
            ∙ sym (
                append_assoc (flatten (map (λ (f : OutFile). f.content) st.closed)) f.content chunk)
            ∙ ap
                (λ o. flatten (map (λ (f : OutFile). f.content) st.closed) ++ content_of o ++ chunk)
                (sym e),
        boundary,
      ),
    )

Outcome-cases :
    (o : Outcome)
    → ((st : OutputState) × (o ≡ Outcome.exhausted st))
      ⊎ ((st : OutputState) × (o ≡ Outcome.done st))
Outcome-cases (Outcome.done st) = inr (st, refl)
Outcome-cases (Outcome.exhausted st) = inl (st, refl)

bind_assoc {ℓ κ μ} :
    {A : Type ℓ} {B : Type κ} {C : Type μ} (o : Option A) (f : A → Option B) (g : B → Option C)
    → (o >>= λ a. f a >>= g) ≡ ((o >>= f) >>= g)
bind_assoc none f g = refl
bind_assoc (some a) f g = refl

-- What the loop does with the file that it has opened.
abbrev go_on : ℕ → List ℕ → Outcome → Option Outcome
go_on fuel buf o = elim o [
  | Outcome.exhausted st' ↦ some (Outcome.exhausted st')
  | Outcome.done st' ↦ write (take (wlen st' buf) buf) st' >>= λ st2.
      incr_output (wlen st' buf) st2 >>= λ st3. output_bytes fuel st3 (drop (wlen st' buf) buf)
]

Wrote-trans :
    (st st' : OutputState) (a b : List ℕ) (o : Outcome)
    → contents st' ≡ contents st ++ a
    → st'.boundary ≡ st.boundary
    → Wrote st' b o
    → Wrote st (a ++ b) o
Wrote-trans st st' a b (Outcome.done st2) e e' (good, same, boundary) =
    (good, same ∙ ap (λ l. l ++ b) e ∙ append_assoc (contents st) a b, boundary ∙ e')
Wrote-trans st st' a b (Outcome.exhausted st2) e e' (good, (rest, same), boundary) =
    (good, (rest, same ∙ ap (λ l. l ++ b) e ∙ append_assoc (contents st) a b), boundary ∙ e')

output_bytes-Wrote :
    (fuel : ℕ) (st : OutputState) (buf : List ℕ)
    → Good st
    → length buf ≤ fuel
    → (o : Outcome) × ((output_bytes fuel st buf ≡ some o) × Wrote st buf o)
unfolding output_bytes Opens Rounds
output_bytes-Wrote fuel st [] good h =
    (Outcome.done st, (refl, (good, sym (append-nil (contents st)), refl)))
output_bytes-Wrote zero st (b ∷ buf) good h = absurd (omega arith)
output_bytes-Wrote (suc fuel) st (b ∷ buf) good h = elim (Outcome-cases (open_output st)) [
  | inl (st', e) ↦
      let (good', same, boundary) = subst (Opens st) e (open_output-Opens st good) in
      (
        Outcome.exhausted st',
        (ap (go_on fuel (b ∷ buf)) e, (good', (b ∷ buf, ap (λ l. l ++ b ∷ buf) same), boundary)),
      )
  | inr (st', e) ↦
      let (good', same, boundary, (f, e')) = subst (Opens st) e (open_output-Opens st good) in
      let w = wlen st' (b ∷ buf) in
      let (st2, (run, good2, more, boundary2)) = round-Rounds st' f (b ∷ buf) good' e' in
      let (o, (rest, wrote)) =
        output_bytes-Wrote fuel st2 (drop w (b ∷ buf)) good2
          (omega (arith, length-drop w (b ∷ buf))) in
      (
        o,
        (
          ap (go_on fuel (b ∷ buf)) e
              ∙ bind_assoc (write (take w (b ∷ buf)) st') (λ s. incr_output w s)
                  (λ s. output_bytes fuel s (drop w (b ∷ buf)))
              ∙ ap (λ (r : Option OutputState). r >>= λ s. output_bytes fuel s (drop w (b ∷ buf)))
                  run
              ∙ rest,
          subst (λ (l : List ℕ). Wrote st l o) (take-append-drop w (b ∷ buf))
              (Wrote-trans st st2 (take w (b ∷ buf)) (drop w (b ∷ buf)) o
                (more ∙ ap (λ l. l ++ take w (b ∷ buf)) same) (boundary2 ∙ boundary) wrote),
        ),
      )
]

abbrev next_reads : List (List ℕ) → Outcome → Option Outcome
next_reads reads o = elim o [
  | Outcome.exhausted st' ↦ some (Outcome.exhausted st')
  | Outcome.done st' ↦ output_reads st' reads
]

-- From a state in which the closed files have the size of the boundary and the open one, of which `count` is the
-- size, is smaller, the loop of `split_by_bytes` ends without a panic, for any division of the bytes into reads:
-- either the bytes of the files have become those from before and those that were read, or the suffixes are
-- exhausted, and they are the first of these; in the state that is left the files have these sizes again.
pub output_reads-Wrote :
    (reads : List (List ℕ)) (st : OutputState)
    → Good st
    → (o : Outcome) × ((output_reads st reads ≡ some o) × Wrote st (flatten reads) o)
unfolding output_reads flatten
output_reads-Wrote [] st good =
    (Outcome.done st, (refl, (good, sym (append-nil (contents st)), refl)))
output_reads-Wrote (buf ∷ reads) st good =
    let (o, (run, wrote)) = output_bytes-Wrote (length buf) st buf good (omega arith) in
    elim (Outcome-cases o) [
      | inl (st', e) ↦
          let (good', (rest, same), boundary) = subst (Wrote st buf) e wrote in
          (
            Outcome.exhausted st',
            (
              ap (λ (r : Option Outcome). r >>= next_reads reads) (run ∙ ap some e),
              (
                good',
                (
                  rest ++ flatten reads,
                  sym (append_assoc (contents st') rest (flatten reads))
                      ∙ ap (λ l. l ++ flatten reads) same
                      ∙ append_assoc (contents st) buf (flatten reads),
                ),
                boundary,
              ),
            ),
          )
      | inr (st', e) ↦
          let (good', same, boundary) = subst (Wrote st buf) e wrote in
          let (o', (run', wrote')) = output_reads-Wrote reads st' good' in
          (
            o',
            (
              ap (λ (r : Option Outcome). r >>= next_reads reads) (run ∙ ap some e) ∙ run',
              Wrote-trans st st' buf (flatten reads) o' same boundary wrote',
            ),
          )
    ]

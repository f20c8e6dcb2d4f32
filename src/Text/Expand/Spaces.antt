-- ===== src/Text/Expand/Spaces.antt =====
-- The spaces for a tab.
use posixutils_rs.Prelude.{
  ℕ, zero, suc, ◌+◌, ◌-◌, ◌*◌, ◌/◌, ◌%◌, ◌<◌, ◌≤◌, ◌≡◌, ◌≢◌, refl, sym, ap, ◌∙◌, subst, [], ◌∷◌,
  ◌++◌, append_assoc, append-nil, Bool, true, false, not, Bool-cases, inl, inr, ==_iff, Option,
  some, ◌==◌, arith,
}
use native.Mathlib.Nat.{mul-mod_left, div-add-mod'}
use posixutils_rs.Std.Strings.{Str}
use posixutils_rs.Text.Expand.{State, space_out, space_while, uni_stop, tab}

abbrev pub spaces : ℕ → Str
spaces zero = []
spaces (suc n) = 32 ∷ spaces n

spaces-snoc : (n : ℕ) → spaces n ++ 32 ∷ [] ≡ spaces (suc n)
spaces-snoc zero = refl
spaces-snoc (suc n) = ap (λ s. 32 ∷ s) (spaces-snoc n)

-- `space_while` from `st` goes on for `e` spaces, up to the next multiple of `m`.
abbrev Fills : ℕ → ℕ → ℕ → State → Type 0
Fills m fuel d st =
    (e : ℕ) × ((st' : State) × ((space_while (λ column. not (column % m == 0)) fuel st ≡ some st')
        × (e ≤ d)
        × ((st.column + e) % m ≡ 0)
        × (st'.column ≡ st.column + e)
        × (st'.out ≡ st.out ++ spaces e)))

either_way : (ℕ → Bool) → ℕ → State → Bool → Option State
either_way test fuel st b = elim b [ true ↦ space_while test fuel (space_out st) | false ↦ some st ]

stays :
    (test : ℕ → Bool) (fuel : ℕ) (st : State)
    → test st.column ≡ false
    → space_while test (suc fuel) st ≡ some st
unfolding space_while either_way
stays test fuel st e = ap (either_way test fuel st) e

goes_on :
    (test : ℕ → Bool) (fuel : ℕ) (st : State)
    → test st.column ≡ true
    → space_while test (suc fuel) st ≡ space_while test fuel (space_out st)
unfolding space_while either_way
goes_on test fuel st e = ap (either_way test fuel st) e

on_multiple : (m c : ℕ) → not (c % m == 0) ≡ false → c % m ≡ 0
on_multiple m c e = ground arith

off_multiple : (m c : ℕ) → not (c % m == 0) ≡ true → c % m ≢ 0
off_multiple m c e = ground arith

fills : (m fuel d : ℕ) (st : State) → (st.column + d) % m ≡ 0 → d < fuel → Fills m fuel d st
fills m zero d st h l = absurd (omega arith)
fills m (suc fuel) zero st h l =
    let c : (st.column + 0) ≡ st.column = omega arith in
    let e : not (st.column % m == 0) ≡ false = rw (sym c) (rw h refl) in
    (0, (st, (stays _ fuel st e, omega arith, h, omega arith, sym (append-nil st.out))))
fills m (suc fuel) (suc d) st h l = elim (Bool-cases (not (st.column % m == 0))) [
  | inl e ↦
      let c : st.column + suc d ≡ st.column + 1 + d = omega arith in
      let (k, (st', (run, bound, multiple, column, out))) =
        fills m fuel d (space_out st) (subst (λ x. x % m ≡ 0) c h) (omega arith) in
      (
        suc k,
        (
          st',
          (
            goes_on _ fuel st e ∙ run,
            omega arith,
            subst (λ x. x % m ≡ 0) (omega arith) multiple,
            column ∙ omega arith,
            out ∙ append_assoc st.out (32 ∷ []) (spaces k),
          ),
        ),
      )
  | inr e ↦ (
    0,
    (
      st,
      (
        stays _ fuel st e,
        omega arith,
        subst (λ x. x % m ≡ 0) (omega arith) (on_multiple m st.column e),
        omega arith,
        sym (append-nil st.out),
      ),
    ),
  )
]

positive : (r : ℕ) → (r == 0) ≡ false → 1 ≤ r
positive r e = ground arith

next_multiple : (c n : ℕ) → (c / suc n + 1) * suc n ≡ c + (suc n - c % suc n)
next_multiple c n =
    let whole = div-add-mod' c (suc n) in
    let product : (c / suc n + 1) * suc n ≡ c / suc n * suc n + suc n = grind arith in
    omega (arith, whole, product)

distance : (n c : ℕ) → (d : ℕ) × (d ≤ n) × ((c + d) % suc n ≡ 0)
distance n c = elim (Bool-cases (c % suc n == 0)) [
  | inl e ↦ (0, omega arith, subst (λ x. x % suc n ≡ 0) (omega arith) ((==_iff (c % suc n) 0).0 e))
  | inr e ↦
      let r = positive (c % suc n) e in
      (
        suc n - c % suc n,
        omega (arith, r),
        subst (λ x. x % suc n ≡ 0) (next_multiple c n) (mul-mod_left (c / suc n + 1) (suc n)),
      )
]

-- A tab becomes `e + 1` spaces, where `e` is at most the width less 1 and leads to a multiple of the width.
pub tab-spaces :
    (n : ℕ) (st : State)
    → (e : ℕ) × ((st' : State) × ((tab (uni_stop (suc n)) st ≡ some st')
          × (e ≤ n)
          × ((st.column + e) % suc n ≡ 0)
          × (st'.column ≡ st.column + e + 1)
          × (st'.out ≡ st.out ++ spaces (suc e))))
unfolding tab
tab-spaces n st =
    let (d, bound, multiple) = distance n st.column in
    let (e, (st', (run, le, multiple', column, out))) =
      fills (suc n) (suc (suc n)) d st multiple (omega arith) in
    (
      e,
      (
        space_out st',
        (
          rw run refl,
          omega arith,
          multiple',
          omega (arith, column),
          ap (λ o. o ++ 32 ∷ []) out
              ∙ append_assoc st.out (spaces e) (32 ∷ [])
              ∙ ap (λ o. st.out ++ o) (spaces-snoc e),
        ),
      ),
    )

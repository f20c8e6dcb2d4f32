-- ===== src/File/Split/Counting.antt =====
-- The suffixes as numbers at base 26.
use posixutils_rs.Prelude.{
  ℕ, zero, suc, ◌+◌, ◌-◌, ◌*◌, ◌^◌, ◌<◌, ◌≤◌, ◌≡◌, refl, sym, ap, subst, ◌∙◌, [], ◌∷◌, Bool, true,
  false, Bool-cases, inl, inr, ltb, ◌==◌, ==_iff, if◌then◌else◌, none, some, length, All, arith,
}
use native.Mathlib.Nat.{pow-suc, suc-mul, mul-le-mul_right}
use posixutils_rs.Std.Strings.{Str}
use posixutils_rs.File.Split.{new_suffix, Stepped, step, next}

abbrev pub IsSuffix : Str → Type 0
IsSuffix s = All (λ c. (b'a' ≤ c) × (c ≤ b'z')) s

-- The number that a suffix stands for.
abbrev pub value : Str → ℕ
value [] = 0
value (c ∷ s) = (c - b'a') * 26 ^ length s + value s

-- What a step does to the suffix `s`: with a carry the suffix was the last and the first is left, else its number
-- grows by one.
abbrev pub Counts : Str → Stepped → Type 0
Counts s t =
    (length t.suffix ≡ length s)
    × IsSuffix t.suffix
    × (value t.suffix + (if t.carry then 26 ^ length s else 0) ≡ value s + 1)

module _ (c : ℕ) (s : Str) where
  kept_step :
      (step s).carry ≡ false
      → step (c ∷ s) ≡ (record { carry = false; suffix = c ∷ (step s).suffix })
  unfolding step
  kept_step e = rw e refl

  carry_step :
      (step s).carry ≡ true
      → (c == b'z') ≡ false
      → step (c ∷ s) ≡ (record { carry = false; suffix = suc c ∷ (step s).suffix })
  unfolding step
  carry_step e e' = rw e (rw e' refl)

  last_step :
      (step s).carry ≡ true
      → (c == b'z') ≡ true
      → step (c ∷ s) ≡ (record { carry = true; suffix = b'a' ∷ (step s).suffix })
  unfolding step
  last_step e e' = rw e (rw e' refl)

scaled : (m n p q : ℕ) → m ≡ n → p ≡ q → m * p ≡ n * q
scaled m n p q e e' = ap (λ k. k * p) e ∙ ap (λ k. n * k) e'

step-Counts : (s : Str) → IsSuffix s → Counts s (step s)
unfolding step
step-Counts [] h = (refl, tt, refl)
step-Counts (c ∷ s) ((low, high), hs) =
    let (len, all, counts) = step-Counts s hs in
    let s' = (step s).suffix in
    let p = 26 ^ length s in
    let same : 26 ^ length s' ≡ p = ap (λ k. 26 ^ k) len in
    elim (Bool-cases (step s).carry) [
      | inr e ↦
          let counts' : value s' + 0 ≡ value s + 1 =
            subst (λ (b : Bool). value s' + (if b then p else 0) ≡ value s + 1) e counts in
          subst (Counts (c ∷ s)) (sym (kept_step c s e)) (
            ap suc len,
            ((low, high), all),
            omega (arith, scaled (c - b'a') (c - b'a') (26 ^ length s') p refl same),
          )
      | inl e ↦
          let counts' : value s' + p ≡ value s + 1 =
            subst (λ (b : Bool). value s' + (if b then p else 0) ≡ value s + 1) e counts in
          elim (Bool-cases (c == b'z')) [
            | inr e' ↦ subst (Counts (c ∷ s)) (sym (carry_step c s e e')) (
              ap suc len,
              ((omega arith, ground arith), all),
              omega (
                arith,
                scaled (suc c - b'a') (suc (c - b'a')) (26 ^ length s') p (omega arith) same,
                suc-mul (c - b'a') p,
              ),
            )
            | inl e' ↦
                let z : c - b'a' ≡ 25 = let is_z : c ≡ b'z' = (==_iff c b'z').0 e' in omega arith in
                subst (Counts (c ∷ s)) (sym (last_step c s e e')) (
                  ap suc len,
                  ((omega arith, omega arith), all),
                  omega (
                    arith,
                    scaled (c - b'a') 25 p p z refl,
                    scaled (b'a' - b'a') 0 (26 ^ length s') p refl same,
                    pow-suc 26 (length s),
                  ),
                )
          ]
    ]

pub value-lt : (s : Str) → IsSuffix s → value s < 26 ^ length s
value-lt [] h = omega arith
value-lt (c ∷ s) ((low, high), hs) =
    let top : (c - b'a') * 26 ^ length s ≤ 25 * 26 ^ length s =
      mul-le-mul_right (26 ^ length s) (omega arith) in
    omega (arith, value-lt s hs, pow-suc 26 (length s))

-- On a suffix of one letter at least, `next` returns the suffix and counts it up by one, if it is not the last,
-- `z` repeated; at the last it returns nothing, so that this one is never used, and the first suffix is left.
pub next_lem :
    (s : Str)
    → 0 < length s
    → IsSuffix s
    → (s' : Str) × ((next s ≡ (if ltb (value s + 1) (26 ^ length s) then some s else none, s'))
        × (length s' ≡ length s)
        × IsSuffix s'
        × (value s' ≡ (if ltb (value s + 1) (26 ^ length s) then value s + 1 else 0)))
unfolding next
next_lem s letters h =
    let (len, all, counts) = step-Counts s h in
    let s' = (step s).suffix in
    let bound : value s' < 26 ^ length s = subst (λ k. value s' < 26 ^ k) len (value-lt s' all) in
    elim (Bool-cases (step s).carry) [
      | inr e ↦
          let counts' : value s' + 0 ≡ value s + 1 =
            subst (λ (b : Bool). value s' + (if b then 26 ^ length s else 0) ≡ value s + 1) e
              counts in
          let more : ltb (value s + 1) (26 ^ length s) ≡ true = ground arith in
          (s', (rw e (rw more refl), len, all, rw more (omega arith)))
      | inl e ↦
          let counts' : value s' + 26 ^ length s ≡ value s + 1 =
            subst (λ (b : Bool). value s' + (if b then 26 ^ length s else 0) ≡ value s + 1) e
              counts in
          let own = value-lt s h in
          let last : ltb (value s + 1) (26 ^ length s) ≡ false = ground arith in
          (s', (rw e (rw last refl), len, all, rw last (omega arith)))
    ]

-- The first suffix is `a` repeated.
pub new_suffix_lem :
    (len : ℕ)
    → IsSuffix (new_suffix len) × (length (new_suffix len) ≡ len) × (value (new_suffix len) ≡ 0)
unfolding new_suffix
new_suffix_lem zero = (tt, refl, refl)
new_suffix_lem (suc len) =
    let (all, size, zeros) = new_suffix_lem len in
    (
      ((omega arith, omega arith), all),
      ap suc size,
      omega (arith, scaled (b'a' - b'a') 0 (26 ^ length (new_suffix len)) 0 refl),
    )

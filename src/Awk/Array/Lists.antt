-- ===== src/Awk/Array/Lists.antt =====
-- What the vector operations of `Array` do, index by index.
use posixutils_rs.Prelude.{
  ℕ, zero, suc, ◌+◌, ◌-◌, ◌<◌, ◌≡◌, refl, none, some, List, [], ◌∷◌, ◌++◌, ltb, ◌==◌, ◌&&◌,
  if◌then◌else◌, length, get_elem?, set, arith, length-set,
}
use posixutils_rs.Awk.Array.{last?, init, swap_remove}

module _ {A : Type 0} where
  pub get_elem?-push :
      (xs : List A) (x : A) (j : ℕ)
      → get_elem? (xs ++ x ∷ []) j ≡ (if j == length xs then some x else get_elem? xs j)
  get_elem?-push [] x zero = refl
  get_elem?-push [] x (suc j) = ground arith
  get_elem?-push (y ∷ xs) x zero = ground arith
  get_elem?-push (y ∷ xs) x (suc j) = ground (arith, get_elem?-push xs x j)

  pub get_elem?-set :
      (xs : List A) (i j : ℕ) (v : A)
      → get_elem? (set xs i v) j ≡ (if i == j && ltb i (length xs) then some v else get_elem? xs j)
  get_elem?-set [] i j v = ground arith
  get_elem?-set (x ∷ xs) zero zero v = ground arith
  get_elem?-set (x ∷ xs) zero (suc j) v = ground arith
  get_elem?-set (x ∷ xs) (suc i) zero v = ground arith
  get_elem?-set (x ∷ xs) (suc i) (suc j) v = ground (arith, get_elem?-set xs i j v)

  pub get_elem?-lt : (xs : List A) (i : ℕ) (v : A) → get_elem? xs i ≡ some v → i < length xs
  get_elem?-lt [] i v h = cc
  get_elem?-lt (x ∷ xs) zero v h = omega arith
  get_elem?-lt (x ∷ xs) (suc i) v h = omega (arith, get_elem?-lt xs i v h)

  pub get_elem?-some : (xs : List A) (i : ℕ) → i < length xs → (v : A) × (get_elem? xs i ≡ some v)
  get_elem?-some [] i h = absurd (omega arith)
  get_elem?-some (x ∷ xs) zero h = (x, refl)
  get_elem?-some (x ∷ xs) (suc i) h = get_elem?-some xs i (omega arith)

  get_elem?-init :
      (xs : List A) (j : ℕ)
      → get_elem? (init xs) j ≡ (if ltb (j + 1) (length xs) then get_elem? xs j else none)
  unfolding init
  get_elem?-init [] j = ground arith
  get_elem?-init (x ∷ []) j = ground arith
  get_elem?-init (x ∷ y ∷ xs) zero = ground arith
  get_elem?-init (x ∷ y ∷ xs) (suc j) = ground (arith, get_elem?-init (y ∷ xs) j)

  last?-get_elem? : (xs : List A) → last? xs ≡ get_elem? xs (length xs - 1)
  unfolding last?
  last?-get_elem? [] = refl
  last?-get_elem? (x ∷ []) = refl
  last?-get_elem? (x ∷ y ∷ xs) =
      let e : suc (suc (length xs)) - 1 ≡ suc (length xs) = omega arith in
      let d : suc (length xs) - 1 ≡ length xs = omega arith in
      rw e (rw d at (last?-get_elem? (y ∷ xs)))

  length-init : (xs : List A) → length (init xs) ≡ length xs - 1
  unfolding init
  length-init [] = omega arith
  length-init (x ∷ []) = omega arith
  length-init (x ∷ y ∷ xs) = omega (arith, length-init (y ∷ xs))

  -- The elements after a `swap_remove` in range.
  pub swap_remove_lem :
      (i : ℕ) (xs : List A)
      → i < length xs
      → (ys : List A) × (swap_remove i xs ≡ some ys)
        × (length ys ≡ length xs - 1)
        × ((j : ℕ)
            → get_elem? ys j ≡ (
                if ltb (j + 1) (length xs)
                then (if i == j then get_elem? xs (length xs - 1) else get_elem? xs j)
                else none))
  unfolding swap_remove
  swap_remove_lem i xs h =
      let (l, e) = get_elem?-some xs (length xs - 1) (omega arith) in
      (
        init (set xs i l),
        ground (arith, last?-get_elem? xs),
        omega (arith, length-init (set xs i l), length-set {0} xs i l),
        λ j.
            ground
              (arith, get_elem?-init (set xs i l) j, length-set xs i l, get_elem?-set xs i j l),
      )

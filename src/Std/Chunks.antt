-- ===== src/Std/Chunks.antt =====
-- `chunks` and `truncate` of vectors.
use mathlib.Core.List.{flatten}
use posixutils_rs.Prelude.{
  ℕ, zero, suc, ◌<◌, ◌≤◌, ◌≡◌, refl, List, [], ◌∷◌, ◌++◌, length, take, drop, arith, ap,
  length-drop, length-take, take-append-drop, All,
}

module _ {ℓ} {A : Type ℓ} where
  unfoldable pub chunks_of : ℕ → ℕ → List A → List (List A)
  chunks_of zero n xs = []
  chunks_of (suc fuel) n [] = []
  chunks_of (suc fuel) n (x ∷ xs) = take n (x ∷ xs) ∷ chunks_of fuel n (drop n (x ∷ xs))

  -- A chunk takes an element at least, if `n` is not 0, so there are no more chunks than elements.
  unfoldable pub chunks : ℕ → List A → List (List A)
  unfolding chunks_of
  chunks n xs = chunks_of (length xs) n xs

  chunks_of-enough :
      (f g n : ℕ) (xs : List A)
      → length xs ≤ f
      → length xs ≤ g
      → chunks_of f (suc n) xs ≡ chunks_of g (suc n) xs
  unfolding chunks_of
  chunks_of-enough zero zero n xs p q = refl
  chunks_of-enough zero (suc g) n [] p q = refl
  chunks_of-enough (suc f) zero n [] p q = refl
  chunks_of-enough (suc f) (suc g) n [] p q = refl
  chunks_of-enough zero g n (x ∷ xs) p q = absurd (omega arith)
  chunks_of-enough (suc f) zero n (x ∷ xs) p q = absurd (omega arith)
  chunks_of-enough (suc f) (suc g) n (x ∷ xs) p q =
      ap (λ (r : List (List A)). take (suc n) (x ∷ xs) ∷ r)
        (chunks_of-enough f g n (drop n xs) (omega (arith, length-drop {ℓ} n xs))
          (omega (arith, length-drop {ℓ} n xs)))

  pub chunks-cons :
      (n : ℕ) (x : A) (xs : List A)
      → chunks (suc n) (x ∷ xs) ≡ take (suc n) (x ∷ xs) ∷ chunks (suc n) (drop n xs)
  unfolding chunks
  chunks-cons n x xs =
      ap (λ (r : List (List A)). take (suc n) (x ∷ xs) ∷ r)
        (chunks_of-enough (length xs) (length (drop n xs)) n (drop n xs)
          (omega (arith, length-drop {ℓ} n xs)) (omega arith))

  pub take-exact : (xs ys : List A) → take (length xs) (xs ++ ys) ≡ xs
  take-exact [] ys = refl
  take-exact (x ∷ xs) ys = ap (λ (r : List A). x ∷ r) (take-exact xs ys)

  module _ {κ} (P : A → Type κ) where
    All-take : (n : ℕ) (xs : List A) → All P xs → All P (take n xs)
    All-take zero xs h = tt
    All-take (suc n) [] h = tt
    All-take (suc n) (x ∷ xs) h = (h.0, All-take n xs h.1)

    pub All-drop : (n : ℕ) (xs : List A) → All P xs → All P (drop n xs)
    All-drop zero xs h = h
    All-drop (suc n) [] h = h
    All-drop (suc n) (x ∷ xs) h = All-drop n xs h.1

    -- A chunk has one to `n` elements, all from the list.
    abbrev pub IsChunk : ℕ → List A → Type κ
    IsChunk n xs = (0 < length xs) × (length xs ≤ n) × All P xs

    chunks_of-IsChunk :
        (fuel n : ℕ) (xs : List A) → All P xs → All (IsChunk (suc n)) (chunks_of fuel (suc n) xs)
    unfolding chunks_of
    chunks_of-IsChunk zero n xs h = tt
    chunks_of-IsChunk (suc f) n [] h = tt
    chunks_of-IsChunk (suc f) n (x ∷ xs) h = (
      (omega arith, omega (arith, length-take {ℓ} n xs), All-take (suc n) (x ∷ xs) h),
      chunks_of-IsChunk f n (drop n xs) (All-drop n xs h.1),
    )

    pub chunks-IsChunk :
        (n : ℕ) (xs : List A) → All P xs → All (IsChunk (suc n)) (chunks (suc n) xs)
    unfolding chunks
    chunks-IsChunk n xs h = chunks_of-IsChunk (length xs) n xs h

  flatten-chunks_of :
      (fuel n : ℕ) (xs : List A) → length xs ≤ fuel → flatten (chunks_of fuel (suc n) xs) ≡ xs
  unfolding flatten chunks_of
  flatten-chunks_of zero n [] h = refl
  flatten-chunks_of zero n (x ∷ xs) h = absurd (omega arith)
  flatten-chunks_of (suc f) n [] h = refl
  flatten-chunks_of (suc f) n (x ∷ xs) h =
      rw (flatten-chunks_of f n (drop n xs) (omega (arith, length-drop {ℓ} n xs)))
        (take-append-drop (suc n) (x ∷ xs))

  pub flatten-chunks : (n : ℕ) (xs : List A) → flatten (chunks (suc n) xs) ≡ xs
  unfolding chunks
  flatten-chunks n xs = flatten-chunks_of (length xs) n xs (omega arith)

-- ===== src/Awk/Array/Iteration.antt =====
-- A whole iteration: `key_iter`, and `key_iter_next` until it gives no key.
use Prim.Native.String.{String}
use posixutils_rs.Prelude.{
  ℕ, zero, suc, ◌+◌, ◌-◌, ◌<◌, ◌≤◌, ◌≡◌, ◌∙◌, refl, ap, Option, none, some, ◌>>=◌, List, [], ◌∷◌,
  length, drop, arith, length-drop, drop-drop, Option-cases, inl, inr,
}
use posixutils_rs.Awk.Array.{
  Array, Pair, key_iter, key_iter_next, next_key, key_iter, key_iter_next, next_key,
}

module _ {V : Type 0} where
  -- The keys of the slots that are taken, in order.
  unfoldable pub keys : List (Pair V) → List String
  keys [] = []
  keys (none ∷ ps) = keys ps
  keys (some (k, v) ∷ ps) = k ∷ keys ps

  -- The calls of `key_iter_next` that a `for` loop makes, with fuel.
  pub collect : ℕ → ℕ → Array V → Option (List String × Array V)
  collect zero index a = none
  collect (suc fuel) index a = do
    (key, a', index') ← key_iter_next index a
    elim key [
      | none ↦ some ([], a')
      | some k ↦ (do (ks, b) ← collect fuel index' a'; some (k ∷ ks, b))
    ]

  pub iterate : Array V → Option (List String × Array V)
  iterate a = let (a', index) = key_iter a in collect (suc (length a.pairs)) index a'

  next_key-none : (n : ℕ) (ps : List (Pair V)) → next_key n ps ≡ none → keys ps ≡ []
  unfolding next_key keys
  next_key-none n [] e = refl
  next_key-none n (none ∷ ps) e = next_key-none (n + 1) ps e
  next_key-none n (some (k, v) ∷ ps) e = cc

  next_key-some :
      (n : ℕ) (ps : List (Pair V)) (k : String) (m : ℕ)
      → next_key n ps ≡ some (k, m)
      → (n < m) × (m ≤ n + length ps) × (keys ps ≡ k ∷ keys (drop (m - n) ps))
  unfolding next_key keys
  next_key-some n [] k m e = cc
  next_key-some n (none ∷ ps) k m e =
      let (lt, le, ks) = next_key-some (n + 1) ps k m e in
      let d : m - n ≡ suc (m - (n + 1)) = omega arith in (omega arith, omega arith, rw d ks)
  next_key-some n (some (j, v) ∷ ps) k m e =
      let d : m - n ≡ 1 = ground arith in (ground arith, ground arith, rw d (ground arith))

  collect_lem :
      (fuel index : ℕ) (a : Array V)
      → index ≤ length a.pairs
      → length a.pairs - index < fuel
      → 0 < a.iterator_count
      → collect fuel index a
        ≡ some (keys (drop index a.pairs), record a { iterator_count = a.iterator_count - 1 })
  unfolding collect key_iter_next
  collect_lem zero index a le lt active = absurd (omega arith)
  collect_lem (suc fuel) index a le lt active =
      elim (Option-cases (next_key index (drop index a.pairs))) [
        | inl e ↦ ground (arith, next_key-none index (drop index a.pairs))
        | inr ((k, m), e) ↦
            let (more, bound, ks) = next_key-some index (drop index a.pairs) k m e in
            let m_le : m ≤ length a.pairs = omega (arith, length-drop {0} index a.pairs) in
            let here : keys (drop index a.pairs) ≡ k ∷ keys (drop m a.pairs) =
              ks
              ∙ ap (λ (t : List (Pair V)). k ∷ keys t)
                  (drop-drop (m - index) index a.pairs
                    ∙ ap (λ (n : ℕ). drop n a.pairs) (omega arith)) in
            ground (arith, collect_lem fuel m a m_le (omega arith) active)
      ]

  -- An iteration over any array gives the keys of its taken slots, each in its turn, and leaves the array
  -- as it was.
  pub iterate_lem : (a : Array V) → iterate a ≡ some (keys a.pairs, a)
  unfolding iterate key_iter
  iterate_lem a =
      collect_lem (suc (length a.pairs)) 0 (record a { iterator_count = a.iterator_count + 1 })
        (omega arith) (omega arith) (omega arith)
      ∙ ap (λ (n : ℕ). some (keys a.pairs, record a { iterator_count = n })) (omega arith)

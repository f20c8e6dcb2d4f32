-- ===== src/Awk/Array/Removal.antt =====
-- The array that `delete` leaves when it removes a key that is there.
use Prim.Native.String.{String}
use text.Mathlib.Text.{◌==◌ as str_eq}
use text.Mathlib.TextEquality.{eq_iff}
use posixutils_rs.Prelude.{
  ℕ, ◌+◌, ◌-◌, ◌<◌, ◌≡◌, refl, none, some, List, [], ◌∷◌, ltb, ◌==◌, if◌then◌else◌, length,
  get_elem?, arith, Option-cases, inl, inr,
}
use posixutils_rs.Awk.KeyMap.{KeyMap, lookup, remove, insert, lookup-insert, lookup-remove}
use posixutils_rs.Awk.Array.{
  Array, Pair, index_to_value, value_at, swap_remove, fix_moved, delete_at, delete,
}
use posixutils_rs.Awk.Array.Lists.{get_elem?-some, swap_remove_lem}
use posixutils_rs.Awk.Array.Dense.{IsDense, key_of-lt}

module _ {V : Type 0} where
  -- In range, a slot of a dense array is taken.
  pub taken :
      (a : Array V) (i : ℕ)
      → IsDense a
      → i < length a.pairs
      → (k : String) × (v : V) × (get_elem? a.pairs i ≡ some (some (k, v)))
  taken a i dense h = go (get_elem?-some a.pairs i h)
    where
      go :
          (p : Pair V) × (get_elem? a.pairs i ≡ some p)
          → (k : String) × (v : V) × (get_elem? a.pairs i ≡ some (some (k, v)))
      go (some (k, v), e) = (k, v, e)
      go (none, e) = absurd (dense.full i e)

  fix_moved-none :
      (m : KeyMap) (i : ℕ) (ys : List (Pair V))
      → 0 < length ys
      → get_elem? ys i ≡ none
      → fix_moved m i ys ≡ none
  unfolding fix_moved
  fix_moved-none m i [] h e = absurd (omega arith)
  fix_moved-none m i (y ∷ ys) h e = rw e

  fix_moved-some :
      (m : KeyMap) (i : ℕ) (ys : List (Pair V)) (k : String) (v : V) (j : ℕ)
      → get_elem? ys i ≡ some (some (k, v))
      → lookup k m ≡ some j
      → fix_moved m i ys ≡ some (insert k i m)
  unfolding fix_moved
  fix_moved-some m i [] k v j e d = cc
  fix_moved-some m i (y ∷ ys) k v j e d = rw e (rw d)

  module _ (key : String) (a : Array V) (i : ℕ) (dense : IsDense a) (still : a.iterator_count ≡ 0)
      (there : lookup key a.key_map ≡ some i) where
    -- Deleting the key of the last element panics, unless it is the only one.
    pub delete_last_panics : i + 1 ≡ length a.pairs → 1 < length a.pairs → delete key a ≡ none
    unfolding delete delete_at
    delete_last_panics last more =
        let (ys, e, n, at) = swap_remove_lem i a.pairs (omega arith) in
        ground (arith, at i, fix_moved-none (remove key a.key_map) i ys)

    module _ (ys : List (Pair V)) (removed : swap_remove i a.pairs ≡ some ys)
        (shorter : length ys ≡ length a.pairs - 1)
        (at : (j : ℕ)
          → get_elem? ys j ≡ (
              if ltb (j + 1) (length a.pairs)
              then (if i == j then get_elem? a.pairs (length a.pairs - 1) else get_elem? a.pairs j)
              else none))
        (before : i + 1 < length a.pairs) (moved : String) (v : V)
        (final : get_elem? a.pairs (length a.pairs - 1) ≡ some (some (moved, v))) where
      abbrev pub result : Array V
      result = record a { key_map = insert moved i (remove key a.key_map); pairs = ys }

      moved-ne-key : lookup moved a.key_map ≡ some (length a.pairs - 1)
      moved-ne-key = dense.index.indexed (length a.pairs - 1) moved (ground arith)

      pub delete-result : delete key a ≡ some result
      unfolding delete delete_at
      delete-result = ground (
        arith,
        at i,
        moved-ne-key,
        eq_iff key moved,
        lookup-remove key moved a.key_map,
        fix_moved-some (remove key a.key_map) i ys moved v (length a.pairs - 1),
      )

      pub result-IsDense : IsDense result
      result-IsDense = record {
        index = record {
          stored = λ k j e. ground (
            arith,
            at j,
            moved-ne-key,
            eq_iff key moved,
            eq_iff key k,
            eq_iff moved k,
            lookup-insert moved k i (remove key a.key_map),
            lookup-remove key k a.key_map,
            dense.index.stored k j,
            dense.index.stored key i,
            key_of-lt a.pairs j k,
          );
          indexed = λ j k e. ground (
            arith,
            at j,
            moved-ne-key,
            eq_iff key moved,
            eq_iff key k,
            eq_iff moved k,
            lookup-insert moved k i (remove key a.key_map),
            lookup-remove key k a.key_map,
            dense.index.indexed j k,
            dense.index.indexed (length a.pairs - 1) k,
          );
        };
        full = λ j e. ground (arith, at j, dense.full j);
        no_empty = dense.no_empty;
      }

      pub value_at-result :
          (k : String) → value_at k result ≡ (if str_eq key k then none else value_at k a)
      unfolding value_at index_to_value
      value_at-result k = elim (Option-cases (lookup k a.key_map)) [
        | inl e ↦ ground (
          arith,
          moved-ne-key,
          eq_iff key moved,
          eq_iff key k,
          eq_iff moved k,
          lookup-insert moved k i (remove key a.key_map),
          lookup-remove key k a.key_map,
        )
        | inr (j, e) ↦ ground (
          arith,
          at i,
          at j,
          moved-ne-key,
          eq_iff key moved,
          eq_iff key k,
          eq_iff moved k,
          lookup-insert moved k i (remove key a.key_map),
          lookup-remove key k a.key_map,
          dense.index.stored k j,
          dense.index.stored key i,
          key_of-lt a.pairs j k,
        )
      ]

    module _ (only : length a.pairs ≡ 1) where
      abbrev pub emptied : Array V
      emptied = record a { key_map = remove key a.key_map; pairs = [] }

      no_pairs : (ys : List (Pair V)) → length ys ≡ 0 → ys ≡ []
      no_pairs [] e = refl
      no_pairs (y ∷ ys) e = absurd (omega arith)

      pub delete-emptied : delete key a ≡ some emptied
      unfolding delete delete_at fix_moved
      delete-emptied =
          let bound = key_of-lt a.pairs i key (dense.index.stored key i there) in
          let (ys, e, n, at) = swap_remove_lem i a.pairs bound in ground (arith, no_pairs ys)

      none_left : (k : String) → lookup k (remove key a.key_map) ≡ none
      none_left k = elim (Option-cases (lookup k (remove key a.key_map))) [
        | inl e ↦ e
        | inr (j, e) ↦ ground (
          arith,
          lookup-remove key k a.key_map,
          eq_iff key k,
          dense.index.stored k j,
          dense.index.stored key i,
          key_of-lt a.pairs j k,
          key_of-lt a.pairs i key,
        )
      ]

      pub emptied-IsDense : IsDense emptied
      emptied-IsDense = record {
        index = record { stored = λ k j e. cc (none_left k); indexed = λ j k e. cc };
        full = λ j e. cc;
        no_empty = dense.no_empty;
      }

      pub value_at-emptied :
          (k : String) → value_at k emptied ≡ (if str_eq key k then none else value_at k a)
      unfolding value_at
      value_at-emptied k = ground (arith, none_left k, lookup-remove key k a.key_map)

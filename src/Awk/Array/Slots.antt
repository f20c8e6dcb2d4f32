-- ===== src/Awk/Array/Slots.antt =====
-- Deletion that leaves an empty slot, and the insertions that come after it.
use Prim.Native.String.{String}
use text.Mathlib.Text.{◌==◌ as str_eq}
use text.Mathlib.TextEquality.{eq_iff}
use posixutils_rs.Prelude.{
  ℕ, suc, ◌+◌, ◌-◌, ◌<◌, ◌≤◌, ◌≡◌, ◌≢◌, refl, ap, none, some, List, [], ◌∷◌, if◌then◌else◌,
  get_elem?, set, arith, Option-cases, inl, inr,
}
use posixutils_rs.Awk.KeyMap.{lookup, remove, insert, lookup-insert, lookup-remove}
use posixutils_rs.Awk.Array.{
  ok, Array, Pair, insert_pair, insert_new, set_value, index_to_value, value_at, delete_at, delete,
  first_some, first_some,
}
use posixutils_rs.Awk.Array.Lists.{get_elem?-set}
use posixutils_rs.Awk.Array.Dense.{key_of, IsIndexed, key_of-lt}

module _ {V : Type 0} where
  -- While an iterator is active, and the map and the vector describe one another, `delete` of a
  -- key that is there empties its slot and counts it: the map and the vector still describe one
  -- another, and what is read at the key goes, and nothing else.
  pub delete_iterated :
      (key : String) (a : Array V) (i : ℕ)
      → IsIndexed a.key_map a.pairs
      → 0 < a.iterator_count
      → lookup key a.key_map ≡ some i
      → (a' : Array V) × (delete key a ≡ some a')
        × IsIndexed a'.key_map a'.pairs
        × (a'.empty_slots ≡ a.empty_slots + 1)
        × ((k : String) → value_at k a' ≡ (if str_eq key k then none else value_at k a))
  unfolding delete delete_at value_at index_to_value
  delete_iterated key a i x active there = (
    record a {
      key_map = remove key a.key_map;
      pairs = set a.pairs i none;
      empty_slots = a.empty_slots + 1;
    },
    ground (arith, x.stored key i, key_of-lt a.pairs i key),
    record {
      stored = λ k j e. ground (
        arith,
        lookup-remove key k a.key_map,
        eq_iff key k,
        get_elem?-set a.pairs i j none,
        x.stored k j,
        x.stored key i,
      );
      indexed = λ j k e. ground (
        arith,
        lookup-remove key k a.key_map,
        eq_iff key k,
        get_elem?-set a.pairs i j none,
        x.indexed j k,
        key_of-lt a.pairs i key,
        x.stored key i,
      );
    },
    refl,
    λ k. elim (Option-cases (lookup k a.key_map)) [
      | inl e ↦ ground (arith, lookup-remove key k a.key_map, eq_iff key k)
      | inr (j, e) ↦ ground (
        arith,
        lookup-remove key k a.key_map,
        eq_iff key k,
        get_elem?-set a.pairs i j none,
        x.stored k j,
        x.stored key i,
      )
    ],
  )

  first_some_lem :
      (n i : ℕ) (ps : List (Pair V))
      → first_some n ps ≡ some i
      → (k : String) × (v : V) × (n ≤ i) × (get_elem? ps (i - n) ≡ some (some (k, v)))
  unfolding first_some
  first_some_lem n i [] e = cc
  first_some_lem n i (none ∷ ps) e =
      let (k, v, le, at) = first_some_lem (n + 1) i ps e in
      let d : i - n ≡ suc (i - (n + 1)) = omega arith in (k, v, omega arith, rw d at)
  first_some_lem n i (some (k, v) ∷ ps) e =
      let d : i ≡ n = ground arith in
      let z : i - n ≡ 0 = omega arith in (k, v, omega arith, rw z refl)

  -- On an array that is not iterated and has an empty slot left by a deletion under iteration,
  -- and whose map and vector describe one another, setting a new key writes to the slot of the
  -- first key that is still there, which reads the new value from then on.
  pub reused_slot :
      (key : String) (value : V) (a : Array V) (i : ℕ)
      → IsIndexed a.key_map a.pairs
      → a.iterator_count ≡ 0
      → 0 < a.empty_slots
      → lookup key a.key_map ≡ none
      → first_some 0 a.pairs ≡ some i
      → (k : String) × (r : Array V) × (set_value key value a ≡ ok (i, r))
        × (lookup k a.key_map ≡ some i)
        × (k ≢ key)
        × (value_at k r ≡ some value)
  unfolding set_value insert_new insert_pair value_at index_to_value
  reused_slot key value a i x still holes fresh first =
      let (k, v, le, at) = first_some_lem 0 i a.pairs first in
      let z : i - 0 ≡ i = omega arith in
      let here : get_elem? a.pairs i ≡ some (some (k, v)) = rw z at at in
      let found : lookup k a.key_map ≡ some i = x.indexed i k (ap key_of here) in
      (
        k,
        record a { key_map = insert key i a.key_map; pairs = set a.pairs i (some (key, value)) },
        ground arith,
        found,
        λ e. ground arith,
        ground (
          arith,
          eq_iff key k,
          lookup-insert key k i a.key_map,
          get_elem?-set a.pairs i i (some (key, value)),
          key_of-lt a.pairs i k,
        ),
      )

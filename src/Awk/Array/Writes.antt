-- ===== src/Awk/Array/Writes.antt =====
-- `set`, `get_value_index` and `from_iter`, against a finite map.
use Prim.Native.String.{String}
use text.Mathlib.Text.{◌==◌ as str_eq}
use text.Mathlib.TextEquality.{eq_iff}
use posixutils_rs.Prelude.{
  ℕ, ◌<◌, ◌≡◌, refl, ap, Option, none, some, List, [], ◌∷◌, ◌++◌, false, if◌then◌else◌, length,
  get_elem?, set, arith, Option-cases, inl, inr,
}
use posixutils_rs.Awk.KeyMap.{lookup, insert, lookup-empty, lookup-insert}
use posixutils_rs.Awk.Array.{
  ok, active_iterator, Array, default, insert_pair, insert_new, overwrite, set_value,
  get_value_index, index_to_value, value_at, contains, from_pairs, from_iter,
}
use posixutils_rs.Awk.Array.Lists.{get_elem?-push, get_elem?-set}
use posixutils_rs.Awk.Array.Dense.{
  IsDense, default-IsDense, key_of-lt, push-IsIndexed, set-IsIndexed, slot_of,
}

module _ {V : Type 0} where
  module _ (key : String) (value : V) (a : Array V) (dense : IsDense a) where
    abbrev pushed : Array V
    pushed = record a {
      key_map = insert key (length a.pairs) a.key_map;
      pairs = a.pairs ++ some (key, value) ∷ [];
    }

    insert_new_lem : insert_new key value a ≡ some (length a.pairs, pushed)
    unfolding insert_new insert_pair
    insert_new_lem = ground (arith, dense.no_empty)

    pushed-IsDense : lookup key a.key_map ≡ none → IsDense pushed
    pushed-IsDense fresh = record {
      index = push-IsIndexed key value a.key_map a.pairs dense.index fresh;
      full = λ i e. ground (arith, get_elem?-push a.pairs (some (key, value)) i, dense.full i);
      no_empty = dense.no_empty;
    }

    value_at-pushed :
        lookup key a.key_map ≡ none
        → (k : String) → value_at k pushed ≡ (if str_eq key k then some value else value_at k a)
    unfolding value_at index_to_value
    value_at-pushed fresh k = elim (Option-cases (lookup k a.key_map)) [
      | inl e ↦ ground (
        arith,
        lookup-insert key k (length a.pairs) a.key_map,
        get_elem?-push a.pairs (some (key, value)) (length a.pairs),
      )
      | inr (i, e) ↦ ground (
        arith,
        eq_iff key k,
        lookup-insert key k (length a.pairs) a.key_map,
        get_elem?-push a.pairs (some (key, value)) i,
        get_elem?-push a.pairs (some (key, value)) (length a.pairs),
        key_of-lt a.pairs i k,
        dense.index.stored k i,
      )
    ]

    module _ (i : ℕ) (there : lookup key a.key_map ≡ some i) where
      abbrev written : Array V
      written = record a { pairs = set a.pairs i (some (key, value)) }

      overwrite_lem : overwrite i value a ≡ some (i, written)
      unfolding overwrite
      overwrite_lem =
          let (v, e) = slot_of (get_elem? a.pairs i) key (dense.index.stored key i there) in rw e

      written-IsDense : IsDense written
      written-IsDense = record {
        index = set-IsIndexed key value a.key_map a.pairs dense.index i there;
        full = λ j e. ground (arith, get_elem?-set a.pairs i j (some (key, value)), dense.full j);
        no_empty = dense.no_empty;
      }

      value_at-written :
          (k : String) → value_at k written ≡ (if str_eq key k then some value else value_at k a)
      unfolding value_at index_to_value
      value_at-written k = elim (Option-cases (lookup k a.key_map)) [
        | inl e ↦ ground (arith, eq_iff key k)
        | inr (j, e) ↦ ground (
          arith,
          eq_iff key k,
          get_elem?-set a.pairs i j (some (key, value)),
          key_of-lt a.pairs i key,
          dense.index.stored key i,
          dense.index.stored k j,
        )
      ]

  -- On a dense array that is not iterated, `set` succeeds, keeps the array dense and without an
  -- iterator, and changes what is read at its key and at no other.
  pub set_value_lem :
      (key : String) (value : V) (a : Array V)
      → IsDense a
      → a.iterator_count ≡ 0
      → (r : ℕ × Array V) × (set_value key value a ≡ ok r)
        × IsDense r.1
        × (r.1.iterator_count ≡ 0)
        × ((k : String) → value_at k r.1 ≡ (if str_eq key k then some value else value_at k a))
  unfolding set_value
  set_value_lem key value a dense still = elim (Option-cases (lookup key a.key_map)) [
    | inl e ↦ (
      (length a.pairs, pushed key value a dense),
      ground (arith, insert_new_lem key value a dense),
      pushed-IsDense key value a dense e,
      still,
      value_at-pushed key value a dense e,
    )
    | inr (i, e) ↦ (
      (i, written key value a dense i e),
      ground (arith, overwrite_lem key value a dense i e),
      written-IsDense key value a dense i e,
      still,
      value_at-written key value a dense i e,
    )
  ]

  -- What `get_value_index` makes of the value that is there.
  abbrev pub or_uninitialized : V → Option V → Option V
  or_uninitialized u none = some u
  or_uninitialized u (some v) = some v

  found_at :
      (key : String) (a : Array V) (i : ℕ)
      → IsDense a
      → lookup key a.key_map ≡ some i
      → (v : V) × (value_at key a ≡ some v) × (index_to_value i a ≡ some (some v))
  unfolding value_at index_to_value
  found_at key a i dense e =
      let (v, d) = slot_of (get_elem? a.pairs i) key (dense.index.stored key i e) in
      (v, ground arith, ground arith)

  -- On a dense array that is not iterated, `get_value_index` succeeds, keeps the array dense, and
  -- its index leads to the value that is read at the key, or to a new uninitialized one; what is
  -- read at the other keys does not change.
  pub get_value_index_lem :
      (uninitialized : V) (key : String) (a : Array V)
      → IsDense a
      → a.iterator_count ≡ 0
      → (r : ℕ × Array V) × (get_value_index uninitialized key a ≡ ok r)
        × IsDense r.1
        × (index_to_value r.0 r.1 ≡ some (or_uninitialized uninitialized (value_at key a)))
        × ((k : String)
            → value_at k r.1 ≡ (
                if str_eq key k
                then or_uninitialized uninitialized (value_at key a)
                else value_at k a))
  unfolding get_value_index
  get_value_index_lem u key a dense still = elim (Option-cases (lookup key a.key_map)) [
    | inl e ↦
        let nothing : value_at key a ≡ none = unfold value_at in rw e in
        (
          (length a.pairs, pushed key u a dense),
          ground (arith, insert_new_lem key u a dense),
          pushed-IsDense key u a dense e,
          unfold index_to_value in
              ground (arith, get_elem?-push a.pairs (some (key, u)) (length a.pairs)),
          λ k. ground (arith, value_at-pushed key u a dense e k),
        )
    | inr (i, e) ↦
        let (v, at, to) = found_at key a i dense e in
        (
          (i, a),
          ground arith,
          dense,
          ground arith,
          λ k. ground (arith, eq_iff key k, ap (λ (j : String). value_at j a)),
        )
  ]

  -- While an iterator is active, `set` fails on every key and `get_value_index` on the keys that
  -- are not there.
  pub iterated_writes :
      (uninitialized value : V) (key : String) (a : Array V)
      → 0 < a.iterator_count
      → (set_value key value a ≡ active_iterator)
        × (contains key a ≡ false → get_value_index uninitialized key a ≡ active_iterator)
  unfolding set_value get_value_index contains
  iterated_writes u value key a h = (ground arith, λ e. ground arith)

  -- The value of the last pair with the key.
  pub last_value : String → List (String × V) → Option V
  last_value k [] = none
  last_value k ((j, v) ∷ l) =
      let later = last_value k l in
      elim later [ some w ↦ some w | none ↦ if str_eq j k then some v else none ]

  abbrev or_earlier : Option V → Option V → Option V
  or_earlier none o = o
  or_earlier (some v) o = some v

  from_pairs_lem :
      (l : List (String × V)) (a : Array V)
      → IsDense a
      → a.iterator_count ≡ 0
      → (r : Array V) × (from_pairs l a ≡ some r)
        × IsDense r
        × (r.iterator_count ≡ 0)
        × ((k : String) → value_at k r ≡ or_earlier (last_value k l) (value_at k a))
  unfolding from_pairs last_value
  from_pairs_lem [] a dense still = (a, refl, dense, still, λ k. refl)
  from_pairs_lem ((key, v) ∷ l) a dense still =
      let ((i, b), e, dense', still', at) = set_value_lem key v a dense still in
      let (r, f, g, h, reads) = from_pairs_lem l b dense' still' in
      (r, rw (from_pairs, e) f, g, h, λ k. ground (arith, reads k, at k))

  -- `from_iter` never fails on a list of pairs, and each key of the dense array it makes reads the value
  -- of its last pair.
  pub from_iter_lem :
      (l : List (String × V))
      → (a : Array V) × (from_iter l ≡ some a)
        × IsDense a
        × (a.iterator_count ≡ 0)
        × ((k : String) → value_at k a ≡ last_value k l)
  unfolding from_iter value_at default
  from_iter_lem l =
      let (r, f, g, h, reads) = from_pairs_lem l default default-IsDense (unfold default in refl) in
      (r, f, g, h, λ k. ground (arith, reads k, lookup-empty k))

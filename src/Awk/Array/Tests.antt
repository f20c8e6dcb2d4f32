-- ===== src/Awk/Array/Tests.antt =====
-- The arrays of awk and their theorems at concrete inputs.
use Prim.Native.String.{String}
use text.Mathlib.TextEquality.{eq_iff}
use text.Mathlib.Text.{◌==◌ as str_eq}
use posixutils_rs.Prelude.{
  ℕ, zero, suc, ◌≡◌, ◌≢◌, refl, none, some, ◌>>=◌, List, [], ◌∷◌, if◌then◌else◌, get_elem?, arith,
}
use posixutils_rs.Awk.KeyMap.{
  KeyMap, empty, lookup, remove, insert, find, without, lookup-empty, lookup-insert,
}
use posixutils_rs.Awk.Array.{
  ok, Array, set_value, index_to_value, value_at, delete, from_iter, default, insert_new,
  insert_pair, overwrite, delete_at, swap_remove, fix_moved, last?, init, from_pairs,
}
use posixutils_rs.Awk.Array.Dense.{key_of, IsIndexed, IsDense, push-IsIndexed, default-IsDense}
use posixutils_rs.Awk.Array.Writes.{set_value_lem}
use posixutils_rs.Awk.Array.Deletes.{delete_lem}
use posixutils_rs.Awk.Array.Slots.{delete_iterated}
use posixutils_rs.Awk.Array.Iteration.{keys, iterate, iterate_lem}

abbrev one_map : KeyMap
one_map = insert "a" 0 empty

abbrev two_map : KeyMap
two_map = insert "b" 1 one_map

abbrev two : Array ℕ
two = record {
  key_map = two_map;
  pairs = some ("a", 10) ∷ some ("b", 20) ∷ [];
  iterator_count = 0;
  empty_slots = 0;
}

lookup-two :
    (lookup "a" two_map ≡ some 0) × (lookup "b" two_map ≡ some 1) × (lookup "c" two_map ≡ none)
unfolding lookup insert find without empty
lookup-two = (refl, refl, refl)

one-IsIndexed : IsIndexed {V = ℕ} one_map (some ("a", 10) ∷ [])
unfolding empty default
one-IsIndexed = push-IsIndexed {V = ℕ} "a" 10 empty [] default-IsDense.index (lookup-empty "a")

one-fresh : lookup "b" one_map ≡ none
unfolding lookup insert find without empty
one-fresh = refl

two-full : (i : ℕ) → get_elem? two.pairs i ≢ some none
two-full zero = λ e. cc
two-full (suc zero) = λ e. cc
two-full (suc (suc i)) = λ e. cc

two-IsDense : IsDense two
two-IsDense = record {
  index = push-IsIndexed {V = ℕ} "b" 20 one_map (some ("a", 10) ∷ []) one-IsIndexed one-fresh;
  full = two-full;
  no_empty = refl;
}

-- `two` with an iterator on it.
abbrev iterated : Array ℕ
iterated = record two { iterator_count = 1 }

-- `two` after `b` was deleted under iteration.
abbrev holed : Array ℕ
holed = record {
  key_map = one_map;
  pairs = some ("a", 10) ∷ none ∷ [];
  iterator_count = 0;
  empty_slots = 1;
}

holed-indexed :
    (i : ℕ) (k : String) → key_of (get_elem? holed.pairs i) ≡ some k → lookup k one_map ≡ some i
holed-indexed zero k e = ground (arith, lookup-insert "a" k 0 empty, eq_iff "a" k)
holed-indexed (suc zero) k e = cc
holed-indexed (suc (suc i)) k e = cc

holed-IsIndexed : IsIndexed holed.key_map holed.pairs
holed-IsIndexed = record {
  stored = λ k i e. ground (arith, lookup-insert "a" k 0 empty, lookup-empty k, eq_iff "a" k);
  indexed = holed-indexed;
}

set_value_lem_example :
    (r : ℕ × Array ℕ) × (set_value "b" 5 two ≡ ok r)
    × IsDense r.1
    × (r.1.iterator_count ≡ 0)
    × ((k : String) → value_at k r.1 ≡ (if str_eq "b" k then some 5 else value_at k two))
set_value_lem_example = set_value_lem "b" 5 two two-IsDense refl

abbrev repeated : List (String × ℕ)
repeated = ("a", 1) ∷ ("b", 2) ∷ ("a", 3) ∷ []

delete_lem_example :
    (a : Array ℕ) × (delete "a" two ≡ some a)
    × (IsDense a × ((k : String) → value_at k a ≡ (if str_eq "a" k then none else value_at k two)))
unfolding lookup insert find without empty
delete_lem_example = delete_lem "a" two two-IsDense refl (λ h. cc (h.1))

delete_iterated_example :
    (a : Array ℕ) × (delete "a" iterated ≡ some a)
    × IsIndexed a.key_map a.pairs
    × (a.empty_slots ≡ 1)
    × ((k : String) → value_at k a ≡ (if str_eq "a" k then none else value_at k iterated))
unfolding lookup insert find without empty
delete_iterated_example = delete_iterated "a" iterated 0 two-IsDense.index (omega arith) refl

iterate_lem_example : iterate holed ≡ some (keys holed.pairs, holed)
iterate_lem_example = iterate_lem holed

keys_test : keys holed.pairs ≡ "a" ∷ []
unfolding keys
keys_test = refl

from_iter_test : (do a ← from_iter repeated; b ← delete "a" a; value_at "b" b) ≡ some 2
unfolding from_iter from_pairs set_value insert_new insert_pair overwrite delete delete_at
    swap_remove fix_moved value_at index_to_value lookup insert find without empty default last?
    init remove
from_iter_test = refl

-- ===== src/Awk/Array.antt =====
-- awk/src/interpreter/array.rs: `Array`, its iterators and its operations.
mod Lists
pub mod Dense
pub mod Writes
mod Removal
pub mod Deletes
pub mod Slots
pub mod Iteration
mod Tests
use Prim.Native.String.{String}
use posixutils_rs.Prelude.{
  ℕ, ◌+◌, ◌-◌, ◌^◌, Option, none, some, ◌>>=◌, List, [], ◌∷◌, ◌++◌, Bool, true, false, leb, ltb,
  ◌==◌, if◌then◌else◌, length, get_elem?, set, drop,
}
use posixutils_rs.Awk.KeyMap.{KeyMap, empty, lookup, remove, insert, size}

-- `cannot insert into an array with an active iterator` is the one error; `panic` is an `unwrap`, an
-- `expect` or an index that fails.
pub data Result {ℓ} (A : Type ℓ) : Type ℓ where
  ok : A → Result A
  active_iterator : Result A
  panic : Result A

abbrev pub or_panic {ℓ} : {A : Type ℓ} → Option A → Result A
or_panic none = panic
or_panic (some a) = ok a

-- `Option<KeyValuePair>`
abbrev pub Pair : Type 0 → Type 0
Pair V = Option (String × V)

-- The values are those of the interpreter; `V` and its uninitialized scalar are parameters.
pub record Array (V : Type 0) : Type 0 where
  pub key_map : KeyMap
  pub pairs : List (Pair V)
  pub iterator_count : ℕ
  pub empty_slots : ℕ

abbrev pub usize_max : ℕ
usize_max = 2 ^ 64 - 1

module _ {A : Type 0} where
  pub last? : List A → Option A
  last? [] = none
  last? (x ∷ []) = some x
  last? (x ∷ y ∷ xs) = last? (y ∷ xs)

  pub init : List A → List A
  init [] = []
  init (x ∷ []) = []
  init (x ∷ y ∷ xs) = x ∷ init (y ∷ xs)

  -- `Vec::swap_remove` of std: the last element takes the place; an index out of range panics.
  pub swap_remove : ℕ → List A → Option (List A)
  swap_remove i xs = if ltb i (length xs) then (do l ← last? xs; some (init (set xs i l))) else none

module _ {V : Type 0} where
  -- `Array::default()`
  pub default : Array V
  default = record { key_map = empty; pairs = []; iterator_count = 0; empty_slots = 0 }

  -- The index of the first element for which the closure of `filter_map` gives a value.
  pub first_some : ℕ → List (Pair V) → Option ℕ
  first_some i [] = none
  first_some i (none ∷ ps) = first_some (i + 1) ps
  first_some i (some p ∷ ps) = some i

  pub insert_pair : String → V → List (Pair V) → Bool → Option (ℕ × List (Pair V))
  insert_pair key value pairs has_empty_slots =
      if has_empty_slots
      then some (length pairs, pairs ++ some (key, value) ∷ [])
      else do index ← first_some 0 pairs; some (index, set pairs index (some (key, value)))

  -- The branch of `delete` that fills the hole, after `swap_remove`.
  pub fix_moved : KeyMap → ℕ → List (Pair V) → Option KeyMap
  fix_moved key_map pair_index [] = some key_map
  fix_moved key_map pair_index (p ∷ ps) = do
    slot ← get_elem? (p ∷ ps) pair_index
    (key, value) ← slot
    old ← lookup key key_map
    some (insert key pair_index key_map)

  pub delete_at : Array V → KeyMap → ℕ → Option (Array V)
  delete_at a key_map pair_index =
      if a.iterator_count == 0
      then (do
        pairs ← swap_remove pair_index a.pairs
        fixed ← fix_moved key_map pair_index pairs
        some (record a { key_map = fixed; pairs = pairs }))
      else if ltb pair_index (length a.pairs)
      then some (record a {
        key_map = key_map;
        pairs = set a.pairs pair_index none;
        empty_slots = a.empty_slots + 1;
      })
      else none

  -- `none` is a panic.
  pub delete : String → Array V → Option (Array V)
  delete key a = elim (lookup key a.key_map) [
    | none ↦ some a
    | some pair_index ↦ delete_at a (remove key a.key_map) pair_index
  ]

  -- A `KeyIterator` is its index.
  pub key_iter : Array V → Array V × ℕ
  key_iter a = (record a { iterator_count = a.iterator_count + 1 }, 0)

  pub next_key : ℕ → List (Pair V) → Option (String × ℕ)
  next_key index [] = none
  next_key index (none ∷ ps) = next_key (index + 1) ps
  next_key index (some (key, v) ∷ ps) = some (key, index + 1)

  -- The key, the array and the iterator; a slice that starts out of range and a count below 0 panic.
  pub key_iter_next : ℕ → Array V → Option (Option String × Array V × ℕ)
  key_iter_next index a =
      if leb index (length a.pairs)
      then (elim (next_key index (drop index a.pairs)) [
        | some (key, index') ↦ some (some key, a, index')
        | none ↦
            if a.iterator_count == 0
            then none
            else some (none, record a { iterator_count = a.iterator_count - 1 }, usize_max)
      ])
      else none

  -- The vacant branch of `get_value_index` and of `set`.
  pub insert_new : String → V → Array V → Option (ℕ × Array V)
  insert_new key value a = do
    (index, pairs) ← insert_pair key value a.pairs (a.empty_slots == 0)
    some (index, record a { key_map = insert key index a.key_map; pairs = pairs })

  pub get_value_index : V → String → Array V → Result (ℕ × Array V)
  get_value_index uninitialized key a = elim (lookup key a.key_map) [
    | some index ↦ ok (index, a)
    | none ↦
        if a.iterator_count == 0 then or_panic (insert_new key uninitialized a) else active_iterator
  ]

  abbrev value_of : Pair V → Option V
  value_of none = none
  value_of (some (key, v)) = some v

  -- The outer `none` is an index out of range, which panics.
  pub index_to_value : ℕ → Array V → Option (Option V)
  index_to_value index a = do slot ← get_elem? a.pairs index; some (value_of slot)

  pub get_value : V → String → Array V → Result (V × Array V)
  get_value uninitialized key a = elim (get_value_index uninitialized key a) [
    | ok (index, a') ↦ or_panic (do slot ← index_to_value index a'; v ← slot; some (v, a'))
    | active_iterator ↦ active_iterator
    | panic ↦ panic
  ]

  -- `self.pairs[pair_index].as_mut().unwrap().1 = value`
  pub overwrite : ℕ → V → Array V → Option (ℕ × Array V)
  overwrite index value a = do
    slot ← get_elem? a.pairs index
    (key, old) ← slot
    some (index, record a { pairs = set a.pairs index (some (key, value)) })

  pub set_value : String → V → Array V → Result (ℕ × Array V)
  set_value key value a =
      if a.iterator_count == 0
      then (elim (lookup key a.key_map) [
        | some index ↦ or_panic (overwrite index value a)
        | none ↦ or_panic (insert_new key value a)
      ])
      else active_iterator

  pub contains : String → Array V → Bool
  contains key a = elim (lookup key a.key_map) [ none ↦ false | some i ↦ true ]

  pub clear : Array V → Array V
  clear a = record a { key_map = empty; pairs = []; empty_slots = 0 }

  pub len : Array V → ℕ
  len a = size a.key_map

  -- What a program reads at a key.
  pub value_at : String → Array V → Option V
  value_at key a = do index ← lookup key a.key_map; slot ← index_to_value index a; slot

  -- The loop of `from_iter`; `none` is its `expect`.
  from_pairs : List (String × V) → Array V → Option (Array V)
  from_pairs [] a = some a
  from_pairs ((key, v) ∷ l) a = elim (set_value key v a) [
    | ok (index, a') ↦ from_pairs l a'
    | active_iterator ↦ none
    | panic ↦ none
  ]

  pub from_iter : List (String × V) → Option (Array V)
  from_iter l = from_pairs l default

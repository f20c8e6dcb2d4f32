-- ===== src/Awk/Array/Dense.antt =====
-- Dense arrays, those that were never deleted from during an iteration: the vector has no empty
-- slot, and the map is the index of its keys.
use Prim.Native.String.{String}
use text.Mathlib.TextEquality.{eq_iff}
use posixutils_rs.Prelude.{
  ℕ, zero, suc, ◌<◌, ◌≡◌, ◌≢◌, refl, Option, none, some, List, [], ◌∷◌, ◌++◌, length, get_elem?,
  set, arith,
}
use posixutils_rs.Awk.KeyMap.{KeyMap, lookup, insert, lookup-empty, lookup-insert}
use posixutils_rs.Awk.Array.{Array, Pair, default}
use posixutils_rs.Awk.Array.Lists.{get_elem?-push, get_elem?-set}

module _ {V : Type 0} where
  -- The key that stands in a slot.
  abbrev pub key_of : Option (Pair V) → Option String
  key_of (some (some (k, v))) = some k
  key_of _ = none

  -- The map and the vector describe one another.
  pub record IsIndexed (m : KeyMap) (pairs : List (Pair V)) : Type 0 where
    pub stored : (k : String) (i : ℕ) → lookup k m ≡ some i → key_of (get_elem? pairs i) ≡ some k
    pub indexed : (i : ℕ) (k : String) → key_of (get_elem? pairs i) ≡ some k → lookup k m ≡ some i

  pub record IsDense (a : Array V) : Type 0 where
    pub index : IsIndexed a.key_map a.pairs
    pub full : (i : ℕ) → get_elem? a.pairs i ≢ some none
    pub no_empty : a.empty_slots ≡ 0

  pub default-IsDense : IsDense default
  unfolding default
  default-IsDense = record {
    index = record { stored = λ k i e. cc (lookup-empty k); indexed = λ i k e. cc };
    full = λ i e. cc;
    no_empty = refl;
  }

  pub key_of-lt :
      (pairs : List (Pair V)) (i : ℕ) (k : String)
      → key_of (get_elem? pairs i) ≡ some k
      → i < length pairs
  key_of-lt [] i k h = cc
  key_of-lt (p ∷ ps) zero k h = omega arith
  key_of-lt (p ∷ ps) (suc i) k h = omega (arith, key_of-lt ps i k h)

  module _ (key : String) (value : V) (m : KeyMap) (pairs : List (Pair V))
      (x : IsIndexed m pairs) where
    pub push-IsIndexed :
        lookup key m ≡ none
        → IsIndexed (insert key (length pairs) m) (pairs ++ some (key, value) ∷ [])
    push-IsIndexed fresh = record {
      stored = λ k i e. ground (
        arith,
        lookup-insert key k (length pairs) m,
        get_elem?-push pairs (some (key, value)) i,
        x.stored k i,
        eq_iff key k,
        key_of-lt pairs i k,
      );
      indexed = λ i k e. ground (
        arith,
        lookup-insert key k (length pairs) m,
        get_elem?-push pairs (some (key, value)) i,
        x.indexed i k,
        eq_iff key k,
      );
    }

    pub set-IsIndexed :
        (i : ℕ) → lookup key m ≡ some i → IsIndexed m (set pairs i (some (key, value)))
    set-IsIndexed i e = record {
      stored = λ k j d.
          ground (arith, get_elem?-set pairs i j (some (key, value)), x.stored k j, x.stored key j);
      indexed = λ j k d. ground (arith, get_elem?-set pairs i j (some (key, value)), x.indexed j k);
    }

  -- A slot that holds a key holds a value.
  pub slot_of :
      (o : Option (Pair V)) (k : String) → key_of o ≡ some k → (v : V) × (o ≡ some (some (k, v)))
  slot_of (some (some (j, v))) k h = (v, ground arith)
  slot_of (some none) k h = cc
  slot_of none k h = cc

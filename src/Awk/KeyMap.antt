-- ===== src/Awk/KeyMap.antt =====
-- `HashMap<Key, usize>` of std, as far as `Array` uses it: the order of its entries is never seen.
use text.Mathlib.Text.{◌==◌ as str_eq}
use text.Mathlib.TextEquality.{eq_iff}
use Prim.Native.String.{String}
use posixutils_rs.Prelude.{
  ℕ, ◌≡◌, refl, Option, none, some, List, [], ◌∷◌, length, if◌then◌else◌, arith,
}

pub record KeyMap : Type 0 where
  entries : List (String × ℕ)

unfoldable pub find : String → List (String × ℕ) → Option ℕ
find k [] = none
find k ((j, i) ∷ l) = if str_eq j k then some i else find k l

unfoldable pub without : String → List (String × ℕ) → List (String × ℕ)
without k [] = []
without k ((j, i) ∷ l) = let rest = without k l in if str_eq j k then rest else (j, i) ∷ rest

unfoldable pub empty : KeyMap
empty = record { entries = [] }

pub size : KeyMap → ℕ
size m = length m.entries

unfoldable pub lookup : String → KeyMap → Option ℕ
lookup k m = find k m.entries

unfoldable pub remove : String → KeyMap → KeyMap
remove k m = record { entries = without k m.entries }

unfoldable pub insert : String → ℕ → KeyMap → KeyMap
insert k i m = record { entries = (k, i) ∷ without k m.entries }

find-without :
    (k j : String) (l : List (String × ℕ))
    → find j (without k l) ≡ (if str_eq k j then none else find j l)
unfolding find without
find-without k j [] = ground arith
find-without k j ((i, v) ∷ l) =
    ground (arith, find-without k j l, eq_iff i k, eq_iff i j, eq_iff k j)

pub lookup-empty : (k : String) → lookup k empty ≡ none
unfolding lookup empty find
lookup-empty k = refl

pub lookup-remove :
    (k j : String) (m : KeyMap) → lookup j (remove k m) ≡ (if str_eq k j then none else lookup j m)
unfolding lookup remove
lookup-remove k j m = find-without k j m.entries

pub lookup-insert :
    (k j : String) (i : ℕ) (m : KeyMap)
    → lookup j (insert k i m) ≡ (if str_eq k j then some i else lookup j m)
unfolding lookup insert find
lookup-insert k j i m = ground (arith, find-without k j m.entries, eq_iff k j)

pub ruleset key_map_laws = (lookup-empty, lookup-remove, lookup-insert)

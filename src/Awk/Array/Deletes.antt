-- ===== src/Awk/Array/Deletes.antt =====
-- `delete` on an array that is not iterated.
use Prim.Native.String.{String}
use text.Mathlib.Text.{◌==◌ as str_eq}
use text.Mathlib.TextEquality.{eq_iff}
use posixutils_rs.Prelude.{
  ℕ, ◌+◌, ◌-◌, ◌<◌, ◌≡◌, ◌∙◌, ap, none, some, ltb, if◌then◌else◌, length, arith, Option-cases,
  Bool-cases, inl, inr,
}
use posixutils_rs.Awk.KeyMap.{lookup}
use posixutils_rs.Awk.Array.{Array, value_at, delete}
use posixutils_rs.Awk.Array.Lists.{swap_remove_lem}
use posixutils_rs.Awk.Array.Dense.{IsDense, key_of-lt}
use posixutils_rs.Awk.Array.Removal.{
  taken, delete_last_panics, result, delete-result, result-IsDense, value_at-result, emptied,
  delete-emptied, emptied-IsDense, value_at-emptied,
}

module _ {V : Type 0} where
  -- The key of the last element of an array that has others.
  abbrev pub IsLastOfMany : String → Array V → Type 0
  IsLastOfMany key a = (1 < length a.pairs) × (lookup key a.key_map ≡ some (length a.pairs - 1))

  -- On a dense array that is not iterated, `delete` panics for the key of the last of several elements.
  pub delete_panics :
      (key : String) (a : Array V)
      → IsDense a
      → a.iterator_count ≡ 0
      → IsLastOfMany key a
      → delete key a ≡ none
  delete_panics key a dense still (more, there) =
      delete_last_panics key a (length a.pairs - 1) dense still there (omega arith) more

  abbrev Deleted : String → Array V → Array V → Type 0
  Deleted key a a' =
      IsDense a' × ((k : String) → value_at k a' ≡ (if str_eq key k then none else value_at k a))

  delete_found :
      (key : String) (a : Array V) (i : ℕ)
      → IsDense a
      → a.iterator_count ≡ 0
      → lookup key a.key_map ≡ some i
      → i + 1 < length a.pairs
      → (a' : Array V) × (delete key a ≡ some a') × Deleted key a a'
  delete_found key a i dense still there before =
      let (ys, e, n, at) = swap_remove_lem i a.pairs (omega arith) in
      let (k, v, f) = taken a (length a.pairs - 1) dense (omega arith) in
      (
        result key a i dense still there ys e n at before k v f,
        delete-result key a i dense still there ys e n at before k v f,
        (
          result-IsDense key a i dense still there ys e n at before k v f,
          value_at-result key a i dense still there ys e n at before k v f,
        ),
      )

  -- On a dense array that is not iterated, for every key but that of the last of several
  -- elements, `delete` succeeds, keeps the array dense, and takes away what is read at the key
  -- and nothing else.
  pub delete_lem :
      (key : String) (a : Array V)
      → IsDense a
      → a.iterator_count ≡ 0
      → ¬ IsLastOfMany key a
      → (a' : Array V) × (delete key a ≡ some a') × Deleted key a a'
  delete_lem key a dense still other = elim (Option-cases (lookup key a.key_map)) [
    | inl e ↦ (
      a,
      unfold delete in ground arith,
      (dense, λ k. unfold value_at in ground (arith, eq_iff key k)),
    )
    | inr (i, e) ↦
        let bound = key_of-lt a.pairs i key (dense.index.stored key i e) in
        elim (Bool-cases (ltb (i + 1) (length a.pairs))) [
          | inl y ↦ delete_found key a i dense still e (ground arith)
          | inr n ↦
              let only : length a.pairs ≡ 1 = elim (Bool-cases (ltb 1 (length a.pairs))) [
                | inl m ↦ absurd (other (ground arith, e ∙ ap some (ground arith)))
                | inr m ↦ ground arith
              ] in
              (
                emptied key a i dense still e only,
                delete-emptied key a i dense still e only,
                (
                  emptied-IsDense key a i dense still e only,
                  value_at-emptied key a i dense still e only,
                ),
              )
        ]
  ]

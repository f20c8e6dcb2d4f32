-- ===== src/Std/Strings.antt =====
-- Strings as the lists of their bytes: comparison, `lines` and `split`.
use Prim.Native.Char.{code}
use Prim.Native.String.{String}
use mathlib.Core.Option.{some-injective}
use posixutils_rs.Prelude.{
  ℕ, ◌≡◌, refl, subst, inl, inr, Bool-cases, Option, none, some, List, [], ◌∷◌, ◌++◌, Bool, true,
  false, ◌&&◌, ltb, ◌==◌, if◌then◌else◌, arith, ◌↔◌, All, ◌≢◌,
}

abbrev pub Str : Type 0
Str = List ℕ

-- The bytes of an ASCII text.
abbrev pub codes : String → Str
codes String.[] = []
codes (String.◌∷◌ c s) = code c ∷ codes s

-- `==`
unfoldable pub str_eq : Str → Str → Bool
str_eq [] [] = true
str_eq [] (y ∷ ys) = false
str_eq (x ∷ xs) [] = false
str_eq (x ∷ xs) (y ∷ ys) = x == y && str_eq xs ys

pub str_eq_iff : (s t : Str) → (str_eq s t ≡ true) ↔ (s ≡ t)
unfolding str_eq
str_eq_iff [] [] = ground arith
str_eq_iff [] (y ∷ ys) = ground arith
str_eq_iff (x ∷ xs) [] = ground arith
str_eq_iff (x ∷ xs) (y ∷ ys) = ground (arith, str_eq_iff xs ys)

-- `match s { word => a, …, _ => none }`: the arms in their order.
unfoldable pub match_str {ℓ} : {A : Type ℓ} → List (Str × A) → Str → Option A
match_str [] s = none
match_str ((word, a) ∷ arms) s =
    let rest = match_str arms s in if str_eq s word then some a else rest

-- What holds of every arm holds of the string and of what it is matched to.
pub match_str-All {ℓ κ} :
    {A : Type ℓ} (P : Str → A → Type κ) (arms : List (Str × A)) (s : Str) (a : A)
    → All (λ arm. P arm.0 arm.1) arms
    → match_str arms s ≡ some a
    → P s a
unfolding match_str
match_str-All P [] s a h e = cc
match_str-All P ((word, b) ∷ arms) s a h e = elim (Bool-cases (str_eq s word)) [
  | inl same ↦
      let b≡a : b ≡ a =
        some-injective b a
          (subst (λ x. (if x then some b else match_str arms s) ≡ some a) same e) in
      let s≡word = (str_eq_iff s word).0 same in rw s≡word (subst (P word) b≡a h.0)
  | inr differ ↦
      match_str-All P arms s a h.1
        (subst (λ x. (if x then some b else match_str arms s) ≡ some a) differ e)
]

-- `<`, which compares bytes.
unfoldable pub str_lt : Str → Str → Bool
str_lt _ [] = false
str_lt [] (y ∷ ys) = true
str_lt (x ∷ xs) (y ∷ ys) =
    let rest = str_lt xs ys in if ltb x y then true else if x == y then rest else false

pub str_lt-total : (a b : Str) → str_lt a b ≡ false → str_lt b a ≡ false → a ≡ b
unfolding str_lt
str_lt-total [] [] p q = refl
str_lt-total [] (y ∷ ys) p q = cc
str_lt-total (x ∷ xs) [] p q = cc
str_lt-total (x ∷ xs) (y ∷ ys) p q = ground (arith, str_lt-total xs ys)

pub str_lt_irrefl : (a : Str) → str_lt a a ≡ false
unfolding str_lt
str_lt_irrefl [] = refl
str_lt_irrefl (x ∷ xs) = ground (arith, str_lt_irrefl xs)

pub str_lt_asymm : (a b : Str) → str_lt a b ≡ true → str_lt b a ≡ false
unfolding str_lt
str_lt_asymm [] [] p = cc
str_lt_asymm [] (y ∷ ys) p = refl
str_lt_asymm (x ∷ xs) [] p = cc
str_lt_asymm (x ∷ xs) (y ∷ ys) p = ground (arith, str_lt_asymm xs ys)

-- `\r` at the end of a line is no part of it.
unfoldable pub without_cr : Str → Str
without_cr [] = []
without_cr (x ∷ []) = if x == 13 then [] else x ∷ []
without_cr (x ∷ y ∷ s) = x ∷ without_cr (y ∷ s)

-- The first part of a split goes on with a byte.
abbrev pub onto_first : ℕ → List Str → List Str
onto_first x [] = (x ∷ []) ∷ []
onto_first x (part ∷ parts) = (x ∷ part) ∷ parts

-- `split`: the parts between the occurrences of a byte, of which there is one at least.
unfoldable pub split : ℕ → Str → List Str
split sep [] = [] ∷ []
split sep (x ∷ s) = let parts = split sep s in if x == sep then [] ∷ parts else onto_first x parts

-- `lines`: the parts between newlines, each without its `\r`; what follows the last newline is a line as it
-- is, unless it is empty.
unfoldable pub terminated : List Str → List Str
terminated [] = []
terminated (part ∷ []) = elim part [ [] ↦ [] | x ∷ s ↦ (x ∷ s) ∷ [] ]
terminated (part ∷ next ∷ parts) = without_cr part ∷ terminated (next ∷ parts)

unfoldable pub lines : Str → List Str
unfolding split terminated
lines s = terminated (split 10 s)

-- No byte of the text is `sep`.
abbrev pub Free : ℕ → Str → Type 0
Free sep = All (λ c. c ≢ sep)

pub split-Free :
    (sep : ℕ) (s rest : Str) → Free sep s → split sep (s ++ sep ∷ rest) ≡ s ∷ split sep rest
unfolding split
split-Free sep [] rest h = ground arith
split-Free sep (x ∷ s) rest h = ground (arith, split-Free sep s rest h.1)

pub split-Free_end : (sep : ℕ) (s : Str) → Free sep s → split sep s ≡ s ∷ []
unfolding split
split-Free_end sep [] h = refl
split-Free_end sep (x ∷ s) h = ground (arith, split-Free_end sep s h.1)

pub without_cr-Free : (s : Str) → Free 13 s → without_cr s ≡ s
unfolding without_cr
without_cr-Free [] h = refl
without_cr-Free (x ∷ []) h = ground arith
without_cr-Free (x ∷ y ∷ s) h = ground (arith, without_cr-Free (y ∷ s) h.1)

split-ne-nil : (sep : ℕ) (s : Str) → split sep s ≢ []
unfolding split
split-ne-nil sep [] = λ e. cc
split-ne-nil sep (x ∷ s) = ground (arith, split-ne-nil sep s)

terminated-cons :
    (l : Str) (parts : List Str)
    → parts ≢ []
    → terminated (l ∷ parts) ≡ without_cr l ∷ terminated parts
unfolding terminated
terminated-cons l [] h = absurd (h refl)
terminated-cons l (p ∷ parts) h = refl

-- A line and its newline.
pub lines-cons : (l rest : Str) → Free 10 l → Free 13 l → lines (l ++ 10 ∷ rest) ≡ l ∷ lines rest
unfolding lines
lines-cons l rest h k =
    rw
      (
        split-Free 10 l rest h,
        terminated-cons l (split 10 rest) (split-ne-nil 10 rest),
        without_cr-Free l k,
      )
      refl

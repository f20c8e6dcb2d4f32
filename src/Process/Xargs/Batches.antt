-- ===== src/Process/Xargs/Batches.antt =====
-- The batches of `remove_args`.
use posixutils_rs.Prelude.{
  ℕ, ◌+◌, ◌≤◌, ◌<◌, ◌≡◌, refl, ap, List, [], ◌∷◌, ◌++◌, false, Option, none, some, length, subst,
  arith,
}
use posixutils_rs.Prelude.{length-append}
use posixutils_rs.Std.Strings.{Str}
use posixutils_rs.Std.Chars.{len}
use posixutils_rs.Process.Xargs.{Split, add_sizes, is_max, reaches, remove_from}

abbrev pub IsSplit : List Str → Split → Type 0
IsSplit args s = s.removed ++ s.left ≡ args

pub remove_from-IsSplit :
    (max_bytes : ℕ) (max_args : Option ℕ) (total n : ℕ) (args : List Str)
    → IsSplit args (remove_from max_bytes max_args total n args)
unfolding remove_from
remove_from-IsSplit max_bytes max_args total n [] = refl
remove_from-IsSplit max_bytes max_args total n (arg ∷ args) =
    let ih = remove_from-IsSplit max_bytes max_args (total + len arg + 1) (n + 1) args in
    ground (arith, ih)

remove_from-left :
    (max_bytes : ℕ) (max_args : Option ℕ) (total n : ℕ) (args : List Str)
    → length (remove_from max_bytes max_args total n args).left ≤ length args
remove_from-left max_bytes max_args total n args =
    let s = remove_from max_bytes max_args total n args in
    omega (
      arith,
      length-append s.removed s.left,
      ap (λ (l : List Str). length l) (remove_from-IsSplit max_bytes max_args total n args),
    )

-- A batch is within the size.
pub remove_from-size :
    (max_bytes : ℕ) (max_args : Option ℕ) (total n : ℕ) (args : List Str)
    → total ≤ max_bytes
    → add_sizes total (remove_from max_bytes max_args total n args).removed ≤ max_bytes
unfolding remove_from add_sizes
remove_from-size max_bytes max_args total n [] h = h
remove_from-size max_bytes max_args total n (arg ∷ args) h =
    let ih = remove_from-size max_bytes max_args (total + len arg + 1) (n + 1) args in
    ground (arith, ih)

-- A batch is within the number.
pub remove_from-number :
    (max_bytes max_args total n : ℕ) (args : List Str)
    → n < max_args
    → n + length (remove_from max_bytes (some max_args) total n args).removed ≤ max_args
unfolding remove_from
remove_from-number max_bytes max_args total n [] h = omega arith
remove_from-number max_bytes max_args total n (arg ∷ args) h =
    let ih = remove_from-number max_bytes max_args (total + len arg + 1) (n + 1) args in
    ground (arith, ih)

-- The first argument is removed when it fits, and only then.
pub remove_from-fits :
    (max_bytes : ℕ) (max_args : Option ℕ) (total n : ℕ) (arg : Str) (args : List Str)
    → total + len arg + 1 ≤ max_bytes
    → length (remove_from max_bytes max_args total n (arg ∷ args)).left ≤ length args
unfolding remove_from
remove_from-fits max_bytes max_args total n arg args h =
    let rest = remove_from-left max_bytes max_args (total + len arg + 1) (n + 1) args in
    ground (arith, rest)

pub remove_from-stuck :
    (max_bytes : ℕ) (max_args : Option ℕ) (total n : ℕ) (arg : Str) (args : List Str)
    → max_bytes < total + len arg + 1
    → remove_from max_bytes max_args total n (arg ∷ args)
      ≡ (record { removed = []; left = arg ∷ args })
unfolding remove_from
remove_from-stuck max_bytes max_args total n arg args h = ground arith

pub add_sizes-ge : (total : ℕ) (args : List Str) → total ≤ add_sizes total args
unfolding add_sizes
add_sizes-ge total [] = omega arith
add_sizes-ge total (arg ∷ args) = omega (arith, add_sizes-ge (total + len arg + 1) args)

-- With `n` arguments on the command line there is room for more.
abbrev pub HasRoom : Option ℕ → ℕ → Type 0
HasRoom max_args n = reaches max_args n ≡ false

pub HasRoom-fewer :
    (max_args : Option ℕ) (m n : ℕ)
    → m ≤ n
    → HasRoom max_args n
    → (is_max max_args m ≡ false) × HasRoom max_args m
HasRoom-fewer none m n h r = (refl, refl)
HasRoom-fewer (some max_args) m n h r = ground arith

all_step :
    (max_bytes : ℕ) (max_args : Option ℕ) (total n : ℕ) (arg : Str) (args : List Str)
    → total + len arg + 1 ≤ max_bytes
    → is_max max_args (n + 1) ≡ false
    → remove_from max_bytes max_args (total + len arg + 1) (n + 1) args
      ≡ (record { removed = args; left = [] })
    → remove_from max_bytes max_args total n (arg ∷ args)
      ≡ (record { removed = arg ∷ args; left = [] })
unfolding remove_from
all_step max_bytes max_args total n arg args h m e = ground arith

-- All arguments are removed if they do not fill a command line.
pub remove_from-all :
    (max_bytes : ℕ) (max_args : Option ℕ) (total n : ℕ) (args : List Str)
    → add_sizes total args ≤ max_bytes
    → HasRoom max_args (n + length args)
    → remove_from max_bytes max_args total n args ≡ (record { removed = args; left = [] })
unfolding remove_from add_sizes
remove_from-all max_bytes max_args total n [] h r = refl
remove_from-all max_bytes max_args total n (arg ∷ args) h r =
    let r' : HasRoom max_args (n + 1 + length args) = subst (HasRoom max_args) (omega arith) r in
    all_step max_bytes max_args total n arg args
      (omega (arith, add_sizes-ge (total + len arg + 1) args))
      (HasRoom-fewer max_args (n + 1) (n + 1 + length args) (omega arith) r').0
      (remove_from-all max_bytes max_args (total + len arg + 1) (n + 1) args h r')

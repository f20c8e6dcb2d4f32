-- ===== src/Iconv/Words/Scalars.antt =====
-- The code points that the Unicode encodings can hold, among others.
use posixutils_rs.Prelude.{ℕ, ◌≡◌, List, [], ◌∷◌, Bool, true, ltb, ◌&&◌, ◌||◌, if◌then◌else◌, arith}
use posixutils_rs.Iconv.Words.{IsScalar}

unfoldable pub is_scalar : ℕ → Bool
is_scalar c = ltb c 0xD800 || (ltb 0xDFFF c && ltb c 0x110000)

unfoldable pub scalars : List ℕ → List ℕ
scalars [] = []
scalars (c ∷ cs) = if is_scalar c then c ∷ scalars cs else scalars cs

unfoldable pub all_scalars : List ℕ → Bool
all_scalars [] = true
all_scalars (c ∷ cs) = is_scalar c && all_scalars cs

pub is_scalar-IsScalar : (c : ℕ) → is_scalar c ≡ true → IsScalar c
unfolding is_scalar
is_scalar-IsScalar c h = ground arith

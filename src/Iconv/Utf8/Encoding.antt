-- ===== src/Iconv/Utf8/Encoding.antt =====
-- UTF-8 as the Unicode standard states it, and `from_ucs4` against it.
use posixutils_rs.Prelude.{
  ℕ, suc, ◌+◌, ◌/◌, ◌%◌, ◌≡◌, ◌∙◌, refl, List, [], ◌∷◌, ◌++◌, Bool, ltb, arith, if◌then◌else◌, All,
  length, ap,
}
use posixutils_rs.Iconv.Stream.{emit, finished, after, run-emit, run-stop}
use posixutils_rs.Iconv.Words.{IsScalar, IsByte}
use posixutils_rs.Iconv.Utf8.{encode_round, from_ucs4}
use posixutils_rs.Iconv.Utf8.Numbers.{trail, lead_2, lead_3, lead_4}

-- The bytes of a scalar value, by the ranges of the standard.
unfoldable pub encoding : ℕ → List ℕ
encoding c =
    if ltb c 0x80
    then c ∷ []
    else if ltb c 0x800
    then (192 + c / 64) ∷ (128 + c % 64) ∷ []
    else if ltb c 0x10000
    then (224 + c / 4096) ∷ (128 + c / 64 % 64) ∷ (128 + c % 64) ∷ []
    else (240 + c / 262144) ∷ (128 + c / 4096 % 64) ∷ (128 + c / 64 % 64) ∷ (128 + c % 64) ∷ []

unfoldable pub encodings : List ℕ → List ℕ
encodings [] = []
encodings (c ∷ cs) = encoding c ++ encodings cs

pub encoding-IsByte : (c : ℕ) → IsScalar c → All IsByte (encoding c)
unfolding encoding
encoding-IsByte c h = ground arith

pub encode_scalar :
    (omit quiet : Bool) (c : ℕ) (rest : List ℕ)
    → IsScalar c
    → encode_round omit quiet (c ∷ rest) ≡ emit (encoding c) [] rest
unfolding encode_round encoding
encode_scalar omit quiet c rest h =
    ground (arith, trail c, trail (c / 64), trail (c / 4096), lead_2 c, lead_3 c, lead_4 c)

-- For every list of scalar values, `from_ucs4` writes their UTF-8 encodings one after another and
-- nothing to stderr, whatever the flags.
pub from_ucs4-encodings_utf8 :
    (omit quiet : Bool) (code_points : List ℕ)
    → All IsScalar code_points
    → from_ucs4 omit quiet code_points
      ≡ record { items = encodings code_points; errors = []; status = finished }
unfolding from_ucs4 encodings
from_ucs4-encodings_utf8 omit quiet [] h =
    run-stop 0 (encode_round omit quiet) [] [] (unfold encode_round in refl)
from_ucs4-encodings_utf8 omit quiet (c ∷ cs) (hc, hcs) =
    run-emit (suc (length cs)) (encode_round omit quiet) (c ∷ cs) cs (encoding c) []
      (encode_scalar omit quiet c cs hc)
    ∙ ap (after (encoding c) []) (from_ucs4-encodings_utf8 omit quiet cs hcs)

-- ===== src/Iconv/Utf8/Dropping.antt =====
-- What `from_ucs4` does with code points that UTF-8 cannot hold.
use posixutils_rs.Prelude.{
  ℕ, suc, ◌≤◌, ◌≡◌, inl, inr, refl, List, [], ◌∷◌, ◌++◌, Bool, true, false, arith, if◌then◌else◌,
  length, ap, ◌||◌, Bool-cases,
}
use posixutils_rs.Iconv.Stream.{emit, finished, report, run-emit, run}
use posixutils_rs.Iconv.Words.Scalars.{is_scalar, scalars, is_scalar-IsScalar}
use posixutils_rs.Iconv.Words.{contains}
use posixutils_rs.Iconv.Utf8.{Message, surrogate, encode_round, from_ucs4}
use posixutils_rs.Iconv.Utf8.Encoding.{encoding, encodings, encode_scalar}

-- The line that a dropped code point leaves on stderr: surrogates are reported, also under `-c`.
abbrev complaint : Bool → ℕ → List Message
complaint quiet c = if contains 0xD800 0xDFFF c then report quiet (surrogate c) else []

module _ (omit quiet : Bool) (lenient : omit || quiet ≡ true) where
  encode_dropped :
      (c : ℕ) (rest : List ℕ)
      → is_scalar c ≡ false
      → encode_round omit quiet (c ∷ rest) ≡ emit [] (complaint quiet c) rest
  unfolding encode_round is_scalar
  encode_dropped c rest h = ground arith

  -- With `-c` or `-s`, for every list of code points, `from_ucs4` leaves out those that UTF-8
  -- cannot hold, writes all others, and ends normally.
  pub from_ucs4_lenient_utf8 :
      (cs : List ℕ)
      → ((from_ucs4 omit quiet cs).items ≡ encodings (scalars cs))
        × ((from_ucs4 omit quiet cs).status ≡ finished)
  unfolding from_ucs4 encodings scalars
  from_ucs4_lenient_utf8 [] = unfold encode_round run in (refl, refl)
  from_ucs4_lenient_utf8 (c ∷ cs) = elim (Bool-cases (is_scalar c)) [
    | inl y ↦
        rw
          (
            run-emit (suc (length cs)) (encode_round omit quiet) (c ∷ cs) cs (encoding c) []
                (encode_scalar omit quiet c cs (is_scalar-IsScalar c y)),
            y,
          )
          (
            ap (λ (t : List ℕ). encoding c ++ t) (from_ucs4_lenient_utf8 cs).0,
            (from_ucs4_lenient_utf8 cs).1,
          )
    | inr n ↦
        rw
          (
            run-emit (suc (length cs)) (encode_round omit quiet) (c ∷ cs) cs [] (complaint quiet c)
                (encode_dropped c cs n),
            n,
          )
          (from_ucs4_lenient_utf8 cs)
  ]

-- With neither flag a surrogate is still only reported and left out, where `to_ucs4` would exit.
pub from_ucs4_surrogate :
    (c : ℕ) (rest : List ℕ)
    → 0xD800 ≤ c
    → c ≤ 0xDFFF
    → encode_round false false (c ∷ rest) ≡ emit [] (surrogate c ∷ []) rest
unfolding encode_round
from_ucs4_surrogate c rest lo hi = ground arith

-- ===== src/Iconv/Utf8/RoundTrip.antt =====
-- `to_ucs4` behind `from_ucs4`, and back.
use posixutils_rs.Prelude.{
  ℕ, zero, suc, ◌+◌, ◌/◌, ◌%◌, ◌≤◌, ◌<◌, ◌≡◌, ◌∙◌, refl, List, [], ◌∷◌, ◌++◌, Bool, arith, length,
  length-append, ap, All,
}
use posixutils_rs.Iconv.Stream.{emit, finished, after, run, run-emit, run-stop}
use posixutils_rs.Iconv.Words.{IsScalar}
use posixutils_rs.Iconv.Utf8.{two, three, four, to_ucs4, from_ucs4}
use posixutils_rs.Iconv.Utf8.Numbers.{
  not_continuation_lem, code_point_2_lem, code_point_3_lem, code_point_4_lem,
}
use posixutils_rs.Iconv.Utf8.Encoding.{encoding, encodings, from_ucs4-encodings_utf8}
use posixutils_rs.Iconv.Utf8.Plain.{plain_round, to_ucs4_plain_utf8}

module _ (omit quiet : Bool) where
  -- One round reads one encoding and leaves what follows it.
  round-encoding :
      (c : ℕ) (rest : List ℕ)
      → IsScalar c
      → plain_round omit quiet (encoding c ++ rest) ≡ emit (c ∷ []) [] rest
  unfolding plain_round encoding two three four
  round-encoding c rest h = ground (
    arith,
    not_continuation_lem (128 + c % 64),
    not_continuation_lem (128 + c / 64 % 64),
    not_continuation_lem (128 + c / 4096 % 64),
    code_point_2_lem (192 + c / 64) (128 + c % 64),
    code_point_3_lem (224 + c / 4096) (128 + c / 64 % 64) (128 + c % 64),
    code_point_4_lem (240 + c / 262144) (128 + c / 4096 % 64) (128 + c / 64 % 64) (128 + c % 64),
  )

  run-encodings :
      (cs : List ℕ) (fuel : ℕ)
      → All IsScalar cs
      → length cs < fuel
      → run fuel (plain_round omit quiet) (encodings cs)
        ≡ record { items = cs; errors = []; status = finished }
  unfolding encodings
  run-encodings cs zero h lt = absurd (omega arith)
  run-encodings [] (suc fuel) h lt =
      run-stop fuel (plain_round omit quiet) [] [] (unfold plain_round in refl)
  run-encodings (c ∷ cs) (suc fuel) (hc, hcs) lt =
      run-emit fuel (plain_round omit quiet) (encodings (c ∷ cs)) (encodings cs) (c ∷ []) []
        (round-encoding c (encodings cs) hc)
      ∙ ap (after (c ∷ []) []) (run-encodings cs fuel hcs (omega arith))

  length-encoding : (c : ℕ) → 1 ≤ length (encoding c)
  unfolding encoding
  length-encoding c = ground arith

  length-encodings : (cs : List ℕ) → length cs ≤ length (encodings cs)
  unfolding encodings
  length-encodings [] = omega arith
  length-encodings (c ∷ cs) =
      omega
        (arith, length-append (encoding c) (encodings cs), length-encoding c, length-encodings cs)

  pub to_ucs4-encodings :
      (cs : List ℕ)
      → All IsScalar cs
      → to_ucs4 omit quiet (encodings cs) ≡ record { items = cs; errors = []; status = finished }
  to_ucs4-encodings cs h =
      to_ucs4_plain_utf8 omit quiet (encodings cs)
      ∙ run-encodings cs (suc (length (encodings cs))) h (omega (arith, length-encodings cs))

-- For every list of scalar values, `to_ucs4` gives the list back from the bytes that `from_ucs4`
-- makes of it, with no message and no exit, whatever the flags of the two sides.
pub to_ucs4-from_ucs4_utf8 :
    (omit quiet omit' quiet' : Bool) (code_points : List ℕ)
    → All IsScalar code_points
    → to_ucs4 omit quiet (from_ucs4 omit' quiet' code_points).items
      ≡ record { items = code_points; errors = []; status = finished }
to_ucs4-from_ucs4_utf8 omit quiet omit' quiet' code_points h =
    rw (from_ucs4-encodings_utf8 omit' quiet' code_points h)
      (to_ucs4-encodings omit quiet code_points h)

-- ===== src/Iconv/Utf16/Dropping.antt =====
-- What `from_ucs4` does with code points that UTF-16 cannot hold.
use posixutils_rs.Prelude.{
  ℕ, suc, ◌≡◌, inl, inr, refl, List, [], ◌∷◌, ◌++◌, Bool, true, false, if◌then◌else◌, length, ap,
  arith, Bool-cases, some,
}
use posixutils_rs.Iconv.Stream.{emit, exit, finished, exited, run-emit, run-exit, run, report}
use posixutils_rs.Iconv.Words.Scalars.{is_scalar, scalars, all_scalars, is_scalar-IsScalar}
use posixutils_rs.Iconv.ByteOrder.{Endian}
use posixutils_rs.Iconv.Words.{contains}
use posixutils_rs.Iconv.Utf16.{
  Variant, Message, isolated_surrogate, invalid_code_point, encode_round, from_ucs4, output_variant,
  reject, endian,
}
use posixutils_rs.Iconv.Utf16.Encoding.{
  encoding, encodings, encode_scalar, output_endian, endian-output_variant,
}

module _ (quiet : Bool) (v : Variant) where
  encode_dropped :
      (c : ℕ) (rest : List ℕ)
      → is_scalar c ≡ false
      → encode_round false quiet v (c ∷ rest) ≡ emit [] [] rest
  unfolding encode_round is_scalar reject
  encode_dropped c rest h = ground arith

  encode_rejected :
      (c : ℕ) (rest : List ℕ)
      → is_scalar c ≡ false
      → (es : List Message) × (encode_round true quiet v (c ∷ rest) ≡ exit es)
  unfolding encode_round is_scalar reject
  encode_rejected c rest h = (
    report quiet (if contains 0xD800 0xDFFF c then isolated_surrogate c else invalid_code_point c),
    ground arith,
  )

module _ (quiet : Bool) (v : Variant) (e : Endian) (fixed : endian v ≡ some e) where
  run_dropping :
      (cs : List ℕ)
      → ((run (suc (length cs)) (encode_round false quiet v) cs).items ≡ encodings e (scalars cs))
        × ((run (suc (length cs)) (encode_round false quiet v) cs).status ≡ finished)
  unfolding encodings scalars
  run_dropping [] = unfold encode_round run in (refl, refl)
  run_dropping (c ∷ cs) = elim (Bool-cases (is_scalar c)) [
    | inl y ↦
        rw
          (
            run-emit (suc (length cs)) (encode_round false quiet v) (c ∷ cs) cs (encoding e c) []
                (encode_scalar false quiet v e fixed c cs (is_scalar-IsScalar c y)),
            y,
          )
          (ap (λ (t : List ℕ). encoding e c ++ t) (run_dropping cs).0, (run_dropping cs).1)
    | inr n ↦
        rw
          (
            run-emit (suc (length cs)) (encode_round false quiet v) (c ∷ cs) cs [] []
                (encode_dropped quiet v c cs n),
            n,
          )
          (run_dropping cs)
  ]

  run_exiting :
      (cs : List ℕ)
      → (run (suc (length cs)) (encode_round true quiet v) cs).status
        ≡ (if all_scalars cs then finished else exited)
  unfolding all_scalars
  run_exiting [] = unfold encode_round run in refl
  run_exiting (c ∷ cs) = elim (Bool-cases (is_scalar c)) [
    | inl y ↦
        rw
          (
            run-emit (suc (length cs)) (encode_round true quiet v) (c ∷ cs) cs (encoding e c) []
                (encode_scalar true quiet v e fixed c cs (is_scalar-IsScalar c y)),
            y,
          )
          (run_exiting cs)
    | inr n ↦
        let (es, rejected) = encode_rejected quiet v c cs n in
        rw (run-exit (suc (length cs)) (encode_round true quiet v) (c ∷ cs) es rejected, n) refl
  ]

-- For every list of code points: without `-c`, `from_ucs4` leaves out what UTF-16 cannot hold and ends
-- normally; with `-c` it ends the process at the first such code point.
pub from_ucs4_flags_utf16 :
    (target : Endian) (quiet : Bool) (v : Variant) (cs : List ℕ)
    → ((from_ucs4 target false quiet v cs).items ≡ encodings (output_endian target v) (scalars cs))
      × ((from_ucs4 target false quiet v cs).status ≡ finished)
      × ((from_ucs4 target true quiet v cs).status ≡ (if all_scalars cs then finished else exited))
unfolding from_ucs4
from_ucs4_flags_utf16 target quiet v cs =
    let fixed = endian-output_variant target v in
    let dropped = run_dropping quiet (output_variant target v) (output_endian target v) fixed cs in
    (
      dropped.0,
      dropped.1,
      run_exiting quiet (output_variant target v) (output_endian target v) fixed cs,
    )

-- ===== src/Iconv/Utf16/Encoding.antt =====
-- UTF-16 as the Unicode standard states it, and `from_ucs4` against it.
use posixutils_rs.Prelude.{
  ℕ, suc, ◌+◌, ◌-◌, ◌/◌, ◌%◌, ◌^◌, ◌≤◌, ◌≡◌, ◌∙◌, refl, List, [], ◌∷◌, ◌++◌, Bool, ltb, arith,
  if◌then◌else◌, All, length, ap, some, append-nil,
}
use posixutils_rs.Prelude.Bits.{bit_and_low}
use posixutils_rs.Iconv.Stream.{emit, exit, finished, after, report, run, run-emit, run-stop}
use posixutils_rs.Iconv.Words.{IsScalar}
use posixutils_rs.Iconv.ByteOrder.{Endian, little, big, u16_bytes}
use posixutils_rs.Iconv.Utf16.{
  Variant, utf16le, utf16be, utf16, isolated_surrogate, endian, native, encode_round, from_ucs4,
  to_bytes, output_variant, reject,
}

-- The first and the second code unit of a supplementary code point.
abbrev pub high_unit : ℕ → ℕ
high_unit c = 0xD800 + (c - 0x10000) / 1024

abbrev pub low_unit : ℕ → ℕ
low_unit c = 0xDC00 + (c - 0x10000) % 1024

unfoldable pub encoding : Endian → ℕ → List ℕ
encoding e c =
    if ltb c 0x10000 then u16_bytes e c else u16_bytes e (high_unit c) ++ u16_bytes e (low_unit c)

unfoldable pub encodings : Endian → List ℕ → List ℕ
encodings e [] = []
encodings e (c ∷ cs) = encoding e c ++ encodings e cs

pub length-encoding : (e : Endian) (c : ℕ) → 2 ≤ length (encoding e c)
unfolding encoding
length-encoding little c = ground arith
length-encoding big c = ground arith

module _ (omit quiet : Bool) (v : Variant) (e : Endian) (fixed : endian v ≡ some e) where
  pub encode_scalar :
      (c : ℕ) (rest : List ℕ)
      → IsScalar c
      → encode_round omit quiet v (c ∷ rest) ≡ emit (encoding e c) [] rest
  unfolding encode_round encoding to_bytes
  encode_scalar c rest h = rw fixed (
      ground (
        arith,
        bit_and_low 10 (c - 0x10000),
        append-nil (u16_bytes e (c % 2 ^ 16)),
        append-nil (u16_bytes e (low_unit c)),
      ))

  run-scalars :
      (cs : List ℕ)
      → All IsScalar cs
      → run (suc (length cs)) (encode_round omit quiet v) cs
        ≡ record { items = encodings e cs; errors = []; status = finished }
  unfolding encodings
  run-scalars [] h = run-stop 0 (encode_round omit quiet v) [] [] (unfold encode_round in refl)
  run-scalars (c ∷ cs) (hc, hcs) =
      run-emit (suc (length cs)) (encode_round omit quiet v) (c ∷ cs) cs (encoding e c) []
        (encode_scalar c cs hc)
      ∙ ap (after (encoding e c) []) (run-scalars cs hcs)

-- The byte order that `from_ucs4` writes.
abbrev pub output_endian : Endian → Variant → Endian
output_endian target utf16le = little
output_endian target utf16be = big
output_endian target utf16 = target

pub endian-output_variant :
    (target : Endian) (v : Variant)
    → endian (output_variant target v) ≡ some (output_endian target v)
unfolding endian output_variant native
endian-output_variant target utf16le = refl
endian-output_variant target utf16be = refl
endian-output_variant little utf16 = refl
endian-output_variant big utf16 = refl

-- For every list of scalar values, `from_ucs4` writes their UTF-16 encodings one after another, in
-- the byte order of the variant, and nothing to stderr, whatever the flags.
pub from_ucs4-encodings_utf16 :
    (target : Endian) (omit quiet : Bool) (v : Variant) (code_points : List ℕ)
    → All IsScalar code_points
    → from_ucs4 target omit quiet v code_points ≡ record {
      items = encodings (output_endian target v) code_points;
      errors = [];
      status = finished;
    }
unfolding from_ucs4
from_ucs4-encodings_utf16 target omit quiet v code_points h =
    run-scalars omit quiet (output_variant target v) (output_endian target v)
      (endian-output_variant target v) code_points h

-- A surrogate is left out in silence without `-c`, and ends the process with `-c`.
pub encode_surrogate :
    (omit quiet : Bool) (v : Variant) (c : ℕ) (rest : List ℕ)
    → 0xD800 ≤ c
    → c ≤ 0xDFFF
    → encode_round omit quiet v (c ∷ rest)
      ≡ (if omit then exit (report quiet (isolated_surrogate c)) else emit [] [] rest)
unfolding encode_round reject
encode_surrogate omit quiet v c rest lo hi = ground arith

-- ===== src/Iconv/Utf16/RoundTrip.antt =====
-- `to_ucs4` behind `from_ucs4`.
use posixutils_rs.Prelude.{
  ℕ, zero, suc, ◌/◌, ◌%◌, ◌<◌, ◌≤◌, ◌≡◌, ◌≢◌, ◌∙◌, refl, List, [], ◌∷◌, ◌++◌, Bool, true, false,
  ltb, arith, if◌then◌else◌, All, length, length-append, ap, some,
}
use posixutils_rs.Iconv.Stream.{emit, finished, after, run, run-emit, run-stop}
use posixutils_rs.Iconv.Words.{IsScalar}
use posixutils_rs.Iconv.ByteOrder.{ByteOrder, Endian, little, big, u16_bytes}
use posixutils_rs.Iconv.Utf16.{
  Variant, utf16le, utf16be, utf16, endian, native, from_ucs4, check_bom, with_buffer, on_unit,
  after_bom, surrogate_pair, to_ucs4,
}
use posixutils_rs.Iconv.Utf16.Encoding.{
  high_unit, low_unit, encoding, encodings, length-encoding, from_ucs4-encodings_utf16,
}
use posixutils_rs.Iconv.Utf16.Plain.{put_plain, plain_round, to_ucs4_plain_utf16, plain_start}

abbrev first : Endian → ℕ → ℕ
first little w = w % 256
first big w = w / 256 % 256

abbrev second : Endian → ℕ → ℕ
second little w = w / 256 % 256
second big w = w % 256

abbrev first_unit : ℕ → ℕ
first_unit c = if ltb c 0x10000 then c else high_unit c

module _ (crate : ByteOrder) (target : Endian) (omit quiet : Bool) (variant : Variant) where
  read-bytes : (e : Endian) (w : ℕ) → w < 65536 → crate.read_u16 e (first e w) (second e w) ≡ w
  read-bytes little w h = omega (arith, crate.read_u16_little (w % 256) (w / 256 % 256))
  read-bytes big w h = omega (arith, crate.read_u16_big (w / 256 % 256) (w % 256))

  -- One round reads one encoding, if the test for the mark settles on its byte order.
  round-encoding :
      (det d : Variant) (checked : Bool) (e : Endian) (c : ℕ) (rest : List ℕ)
      → endian d ≡ some e
      → IsScalar c
      → check_bom crate target variant det checked
          (first e (first_unit c))
          (second e (first_unit c))
        ≡ (d, false)
      → plain_round crate target omit quiet variant
          (record { bytes = encoding e c ++ rest; determined_variant = det; bom_checked = checked })
        ≡ emit (c ∷ []) [] (put_plain d rest)
  unfolding plain_round encoding with_buffer after_bom on_unit surrogate_pair
  round-encoding det d checked little c rest fixed h settled =
      ground (
        arith,
        read-bytes little c,
        read-bytes little (high_unit c),
        read-bytes little (low_unit c),
      )
  round-encoding det d checked big c rest fixed h settled =
      ground (arith, read-bytes big c, read-bytes big (high_unit c), read-bytes big (low_unit c))

  settled_by_check :
      (d : Variant) (b0 b1 : ℕ) → check_bom crate target variant d true b0 b1 ≡ (d, false)
  unfolding check_bom
  settled_by_check d b0 b1 = refl

  -- Once the byte order is settled, encodings are read one after another.
  run-encodings :
      (d : Variant) (e : Endian) (cs : List ℕ) (fuel : ℕ)
      → endian d ≡ some e
      → All IsScalar cs
      → length cs < fuel
      → run fuel (plain_round crate target omit quiet variant) (put_plain d (encodings e cs))
        ≡ record { items = cs; errors = []; status = finished }
  unfolding encodings
  run-encodings d e cs zero fixed h lt = absurd (omega arith)
  run-encodings d e [] (suc fuel) fixed h lt =
      run-stop fuel (plain_round crate target omit quiet variant) (put_plain d []) []
        (unfold plain_round with_buffer in refl)
  run-encodings d e (c ∷ cs) (suc fuel) fixed (hc, hcs) lt =
      run-emit fuel (plain_round crate target omit quiet variant)
        (put_plain d (encoding e c ++ encodings e cs)) (put_plain d (encodings e cs)) (c ∷ []) []
        (round-encoding d d true e c (encodings e cs) fixed hc
          (settled_by_check d (first e (first_unit c)) (second e (first_unit c))))
      ∙ ap (after (c ∷ []) []) (run-encodings d e cs fuel fixed hcs (omega arith))

  length-encodings : (e : Endian) (cs : List ℕ) → length cs ≤ length (encodings e cs)
  unfolding encodings
  length-encodings e [] = omega arith
  length-encodings e (c ∷ cs) = omega (
    arith,
    length-append (encoding e c) (encodings e cs),
    length-encoding e c,
    length-encodings e cs,
  )

  -- The first round on encodings, if the test for the mark settles on their byte order.
  to_ucs4-encodings :
      (d : Variant) (e : Endian) (c : ℕ) (cs : List ℕ)
      → endian d ≡ some e
      → All IsScalar (c ∷ cs)
      → check_bom crate target variant variant false
          (first e (first_unit c))
          (second e (first_unit c))
        ≡ (d, false)
      → to_ucs4 crate target omit quiet variant (encodings e (c ∷ cs))
        ≡ record { items = c ∷ cs; errors = []; status = finished }
  to_ucs4-encodings d e c cs fixed (hc, hcs) settled =
      to_ucs4_plain_utf16 crate target omit quiet variant (encodings e (c ∷ cs))
      ∙ run-emit (length (encodings e (c ∷ cs))) (plain_round crate target omit quiet variant)
          (plain_start crate target omit quiet variant (encodings e (c ∷ cs)))
          (put_plain d (encodings e cs)) (c ∷ []) []
          (unfold encodings in round-encoding variant d false e c (encodings e cs) fixed hc settled)
      ∙ ap (after (c ∷ []) []) (
          run-encodings d e cs (length (encodings e (c ∷ cs))) fixed hcs (
            unfold encodings in
            omega (
              arith,
              length-append (encoding e c) (encodings e cs),
              length-encoding e c,
              length-encodings e cs,
            )))

  to_ucs4-nil :
      to_ucs4 crate target omit quiet variant []
      ≡ record { items = []; errors = []; status = finished }
  to_ucs4-nil =
      to_ucs4_plain_utf16 crate target omit quiet variant []
      ∙ run-stop 0 (plain_round crate target omit quiet variant)
          (plain_start crate target omit quiet variant []) []
          (unfold plain_round with_buffer in refl)

-- A text that starts with U+FEFF or U+FFFE reads as marked.
abbrev pub StartsUnmarked : List ℕ → Type 0
StartsUnmarked [] = Unit
StartsUnmarked (c ∷ cs) = (c ≢ 0xFEFF) × (c ≢ 0xFFFE)

-- Nothing is asked of a text whose byte order is named.
abbrev pub Readable : Variant → List ℕ → Type 0
Readable utf16 cs = StartsUnmarked cs
Readable _ cs = Unit

endian-native : (target : Endian) → endian (native target) ≡ some target
unfolding endian native
endian-native little = refl
endian-native big = refl

module _ (crate : ByteOrder) (target : Endian) where
  unmarked_settles :
      (e : Endian) (c : ℕ)
      → IsScalar c
      → c ≢ 0xFEFF
      → c ≢ 0xFFFE
      → check_bom crate target utf16 utf16 false (first e (first_unit c)) (second e (first_unit c))
        ≡ (native target, false)
  unfolding check_bom
  unmarked_settles little c h p q =
      ground (arith, crate.read_u16_big (first_unit c % 256) (first_unit c / 256 % 256))
  unmarked_settles big c h p q =
      ground (arith, crate.read_u16_big (first_unit c / 256 % 256) (first_unit c % 256))

  -- Scalar values come back from the bytes that `from_ucs4` makes of them, on a machine of either byte
  -- order, whatever the flags of the two sides; under the name UTF-16, which leaves the byte order open, if
  -- the text does not begin with a code point that reads as a mark.
  pub to_ucs4-from_ucs4_utf16 :
      (omit quiet omit' quiet' : Bool) (v : Variant) (code_points : List ℕ)
      → All IsScalar code_points
      → Readable v code_points
      → to_ucs4 crate target omit quiet v (from_ucs4 target omit' quiet' v code_points).items
        ≡ record { items = code_points; errors = []; status = finished }
  to_ucs4-from_ucs4_utf16 omit quiet omit' quiet' v [] h n =
      rw (from_ucs4-encodings_utf16 target omit' quiet' v [] h)
        (unfold encodings in to_ucs4-nil crate target omit quiet v)
  to_ucs4-from_ucs4_utf16 omit quiet omit' quiet' utf16le (c ∷ cs) h n =
      rw (from_ucs4-encodings_utf16 target omit' quiet' utf16le (c ∷ cs) h) (
        to_ucs4-encodings crate target omit quiet utf16le utf16le little c cs
          (unfold endian in refl) h (unfold check_bom in refl))
  to_ucs4-from_ucs4_utf16 omit quiet omit' quiet' utf16be (c ∷ cs) h n =
      rw (from_ucs4-encodings_utf16 target omit' quiet' utf16be (c ∷ cs) h) (
        to_ucs4-encodings crate target omit quiet utf16be utf16be big c cs (unfold endian in refl) h
          (unfold check_bom in refl))
  to_ucs4-from_ucs4_utf16 omit quiet omit' quiet' utf16 (c ∷ cs) h n =
      rw (from_ucs4-encodings_utf16 target omit' quiet' utf16 (c ∷ cs) h) (
        to_ucs4-encodings crate target omit quiet utf16 (native target) target c cs
          (endian-native target) h (unmarked_settles target c h.0 n.0 n.1))

  -- Under the name UTF-16, for every list of scalar values and either byte order, `to_ucs4` reads
  -- a byte order mark followed by the encodings in that byte order as the list, whatever the
  -- machine's byte order.
  pub to_ucs4_marked_utf16 :
      (omit quiet : Bool) (e : Endian) (code_points : List ℕ)
      → All IsScalar code_points
      → to_ucs4 crate target omit quiet utf16 (u16_bytes e 0xFEFF ++ encodings e code_points)
        ≡ record { items = code_points; errors = []; status = finished }
  to_ucs4_marked_utf16 omit quiet little cs h =
      to_ucs4_plain_utf16 crate target omit quiet utf16 (0xFF ∷ 0xFE ∷ encodings little cs)
      ∙ run-emit (suc (suc (length (encodings little cs))))
          (plain_round crate target omit quiet utf16)
          (plain_start crate target omit quiet utf16 (0xFF ∷ 0xFE ∷ encodings little cs))
          (put_plain utf16le (encodings little cs)) [] []
          (unfold plain_round with_buffer after_bom check_bom in rw (crate.read_u16_big 0xFF 0xFE))
      ∙ run-encodings crate target omit quiet utf16 utf16le little cs _ (unfold endian in refl) h
          (omega (arith, length-encodings crate target omit quiet utf16 little cs))
  to_ucs4_marked_utf16 omit quiet big cs h =
      to_ucs4_plain_utf16 crate target omit quiet utf16 (0xFE ∷ 0xFF ∷ encodings big cs)
      ∙ run-emit (suc (suc (length (encodings big cs)))) (plain_round crate target omit quiet utf16)
          (plain_start crate target omit quiet utf16 (0xFE ∷ 0xFF ∷ encodings big cs))
          (put_plain utf16be (encodings big cs)) [] []
          (unfold plain_round with_buffer after_bom check_bom in rw (crate.read_u16_big 0xFE 0xFF))
      ∙ run-encodings crate target omit quiet utf16 utf16be big cs _ (unfold endian in refl) h
          (omega (arith, length-encodings crate target omit quiet utf16 big cs))

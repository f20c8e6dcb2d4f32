-- ===== src/Iconv/Utf32/RoundTrip.antt =====
-- UTF-32: `to_ucs4` behind `from_ucs4`.
use posixutils_rs.Prelude.{
  ℕ, zero, suc, ◌/◌, ◌%◌, ◌<◌, ◌≤◌, ◌≡◌, ◌≢◌, ◌∙◌, refl, List, [], ◌∷◌, ◌++◌, Bool, true, false,
  arith, All, length, ap, some,
}
use posixutils_rs.Iconv.Stream.{emit, finished, after, run, run-emit, run-stop}
use posixutils_rs.Iconv.Words.{start, fill}
use posixutils_rs.Iconv.ByteOrder.{ByteOrder, Endian, little, big, u32_bytes}
use posixutils_rs.Iconv.Utf32.{
  Variant, utf32le, utf32be, utf32, State, endian, native, check_bom, with_buffer, on_word,
  after_bom, refill, decode_round, to_ucs4, output_variant, write_u32, encode_round, from_ucs4,
}

-- UTF-32 takes surrogates too.
abbrev pub IsCodePoint : ℕ → Type 0
IsCodePoint c = c < 0x110000

unfoldable pub encodings : Endian → List ℕ → List ℕ
encodings e [] = []
encodings e (c ∷ cs) = u32_bytes e c ++ encodings e cs

abbrev pub output_endian : Endian → Variant → Endian
output_endian target utf32le = little
output_endian target utf32be = big
output_endian target utf32 = target

endian-output_variant :
    (target : Endian) (v : Variant)
    → endian (output_variant target v) ≡ some (output_endian target v)
unfolding endian output_variant native
endian-output_variant target utf32le = refl
endian-output_variant target utf32be = refl
endian-output_variant little utf32 = refl
endian-output_variant big utf32 = refl

module _ (crate : ByteOrder) (omit quiet : Bool) (v : Variant) (e : Endian)
    (fixed : endian v ≡ some e) where
  encode_code_point :
      (c : ℕ) (rest : List ℕ)
      → IsCodePoint c
      → encode_round crate omit quiet v (c ∷ rest) ≡ emit (u32_bytes e c) [] rest
  unfolding encode_round write_u32
  encode_code_point c rest h = rw fixed (ground (arith, crate.write_u32_lem e c))

  run-code_points :
      (cs : List ℕ)
      → All IsCodePoint cs
      → run (suc (length cs)) (encode_round crate omit quiet v) cs
        ≡ record { items = encodings e cs; errors = []; status = finished }
  unfolding encodings
  run-code_points [] h =
      run-stop 0 (encode_round crate omit quiet v) [] [] (unfold encode_round in refl)
  run-code_points (c ∷ cs) (hc, hcs) =
      run-emit (suc (length cs)) (encode_round crate omit quiet v) (c ∷ cs) cs (u32_bytes e c) []
        (encode_code_point c cs hc)
      ∙ ap (after (u32_bytes e c) []) (run-code_points cs hcs)

-- Up to U+10FFFF `from_ucs4` writes four bytes for a code point, whatever the flags.
pub from_ucs4-encodings_utf32 :
    (crate : ByteOrder) (target : Endian) (omit quiet : Bool) (v : Variant) (code_points : List ℕ)
    → All IsCodePoint code_points
    → from_ucs4 crate target omit quiet v code_points ≡ record {
      items = encodings (output_endian target v) code_points;
      errors = [];
      status = finished;
    }
unfolding from_ucs4
from_ucs4-encodings_utf32 crate target omit quiet v code_points h =
    run-code_points crate omit quiet (output_variant target v) (output_endian target v)
      (endian-output_variant target v) code_points h

-- The state between two rounds: the buffer is empty.
abbrev pub between : Variant → Bool → List ℕ → State
between v checked input = record { reader = start input; variant = v; bom_checked = checked }

abbrev head_word : ByteOrder → Endian → ℕ → ℕ
head_word crate little c =
    crate.read_u32 big (c % 256) (c / 256 % 256) (c / 65536 % 256) (c / 16777216 % 256)
head_word crate big c =
    crate.read_u32 big (c / 16777216 % 256) (c / 65536 % 256) (c / 256 % 256) (c % 256)

module _ (crate : ByteOrder) (target : Endian) (omit quiet : Bool) where
  -- One round reads four bytes, if the test for the mark settles on their order.
  round-bytes :
      (v d : Variant) (checked : Bool) (e : Endian) (c : ℕ) (rest : List ℕ)
      → endian d ≡ some e
      → IsCodePoint c
      → check_bom target v checked (head_word crate e c) ≡ (d, false)
      → decode_round crate target omit quiet (between v checked (u32_bytes e c ++ rest))
        ≡ emit (c ∷ []) [] (between d true rest)
  unfolding decode_round with_buffer after_bom on_word refill fill
  round-bytes v d checked little c rest fixed h settled = ground (
    arith,
    crate.read_u32_little (c % 256) (c / 256 % 256) (c / 65536 % 256) (c / 16777216 % 256),
  )
  round-bytes v d checked big c rest fixed h settled =
      ground
        (arith, crate.read_u32_big (c / 16777216 % 256) (c / 65536 % 256) (c / 256 % 256) (c % 256))

  run-encodings :
      (d : Variant) (e : Endian) (cs : List ℕ) (fuel : ℕ)
      → endian d ≡ some e
      → All IsCodePoint cs
      → length cs < fuel
      → run fuel (decode_round crate target omit quiet) (between d true (encodings e cs))
        ≡ record { items = cs; errors = []; status = finished }
  unfolding encodings
  run-encodings d e cs zero fixed h lt = absurd (omega arith)
  run-encodings d e [] (suc fuel) fixed h lt =
      run-stop fuel (decode_round crate target omit quiet) (between d true []) []
        (unfold decode_round with_buffer refill fill in refl)
  run-encodings d e (c ∷ cs) (suc fuel) fixed (hc, hcs) lt =
      run-emit fuel (decode_round crate target omit quiet)
        (between d true (u32_bytes e c ++ encodings e cs)) (between d true (encodings e cs))
        (c ∷ []) [] (round-bytes d d true e c (encodings e cs) fixed hc (unfold check_bom in refl))
      ∙ ap (after (c ∷ []) []) (run-encodings d e cs fuel fixed hcs (omega arith))

  length-encodings : (e : Endian) (cs : List ℕ) → length cs ≤ length (encodings e cs)
  unfolding encodings
  length-encodings e [] = omega arith
  length-encodings little (c ∷ cs) = omega (arith, length-encodings little cs)
  length-encodings big (c ∷ cs) = omega (arith, length-encodings big cs)

  to_ucs4-encodings :
      (v d : Variant) (e : Endian) (c : ℕ) (cs : List ℕ)
      → endian d ≡ some e
      → All IsCodePoint (c ∷ cs)
      → check_bom target v false (head_word crate e c) ≡ (d, false)
      → to_ucs4 crate target omit quiet v (encodings e (c ∷ cs))
        ≡ record { items = c ∷ cs; errors = []; status = finished }
  unfolding to_ucs4 encodings
  to_ucs4-encodings v d e c cs fixed (hc, hcs) settled =
      run-emit (length (u32_bytes e c ++ encodings e cs)) (decode_round crate target omit quiet)
        (between v false (u32_bytes e c ++ encodings e cs)) (between d true (encodings e cs))
        (c ∷ []) [] (round-bytes v d false e c (encodings e cs) fixed hc settled)
      ∙ ap (after (c ∷ []) [])
          (run-encodings d e cs _ fixed hcs (omega (arith, length-encodings e (c ∷ cs))))

-- A text that starts with U+FEFF reads as marked.
abbrev pub Readable : Variant → List ℕ → Type 0
Readable utf32 (c ∷ cs) = c ≢ 0xFEFF
Readable _ _ = Unit

endian-native : (target : Endian) → endian (native target) ≡ some target
unfolding endian native
endian-native little = refl
endian-native big = refl

module _ (crate : ByteOrder) (target : Endian) where
  unmarked_settles :
      (e : Endian) (c : ℕ)
      → IsCodePoint c
      → c ≢ 0xFEFF
      → check_bom target utf32 false (head_word crate e c) ≡ (native target, false)
  unfolding check_bom
  unmarked_settles little c h p =
      ground
        (arith, crate.read_u32_big (c % 256) (c / 256 % 256) (c / 65536 % 256) (c / 16777216 % 256))
  unmarked_settles big c h p =
      ground
        (arith, crate.read_u32_big (c / 16777216 % 256) (c / 65536 % 256) (c / 256 % 256) (c % 256))

  -- Code points come back from the bytes that `from_ucs4` makes of them, on a machine of either byte
  -- order, whatever the flags of the two sides; under the name UTF-32, which leaves the byte order open,
  -- if the text does not begin with U+FEFF.
  pub to_ucs4-from_ucs4_utf32 :
      (omit quiet omit' quiet' : Bool) (v : Variant) (code_points : List ℕ)
      → All IsCodePoint code_points
      → Readable v code_points
      → to_ucs4 crate target omit quiet v (from_ucs4 crate target omit' quiet' v code_points).items
        ≡ record { items = code_points; errors = []; status = finished }
  to_ucs4-from_ucs4_utf32 omit quiet omit' quiet' v [] h n =
      rw (from_ucs4-encodings_utf32 crate target omit' quiet' v [] h) (
        unfold to_ucs4 encodings in
        run-stop 0 (decode_round crate target omit quiet) (between v false []) []
          (unfold decode_round with_buffer refill fill in refl))
  to_ucs4-from_ucs4_utf32 omit quiet omit' quiet' utf32le (c ∷ cs) h n =
      rw (from_ucs4-encodings_utf32 crate target omit' quiet' utf32le (c ∷ cs) h) (
        to_ucs4-encodings crate target omit quiet utf32le utf32le little c cs
          (unfold endian in refl) h (unfold check_bom in refl))
  to_ucs4-from_ucs4_utf32 omit quiet omit' quiet' utf32be (c ∷ cs) h n =
      rw (from_ucs4-encodings_utf32 crate target omit' quiet' utf32be (c ∷ cs) h) (
        to_ucs4-encodings crate target omit quiet utf32be utf32be big c cs (unfold endian in refl) h
          (unfold check_bom in refl))
  to_ucs4-from_ucs4_utf32 omit quiet omit' quiet' utf32 (c ∷ cs) h n =
      rw (from_ucs4-encodings_utf32 crate target omit' quiet' utf32 (c ∷ cs) h) (
        to_ucs4-encodings crate target omit quiet utf32 (native target) target c cs
          (endian-native target) h (unmarked_settles target c h.0 n))

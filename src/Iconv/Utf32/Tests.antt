-- ===== src/Iconv/Utf32/Tests.antt =====
-- The UTF-32 converters and their theorems at concrete inputs.
use posixutils_rs.Prelude.{ℕ, ◌≡◌, refl, List, [], ◌∷◌, true, false, arith}
use posixutils_rs.Iconv.Stream.{finished, run}
use posixutils_rs.Iconv.Words.{fill}
use posixutils_rs.Iconv.ByteOrder.{plain_order, big}
use posixutils_rs.Iconv.Utf32.{
  utf32, to_ucs4, from_ucs4, decode_round, with_buffer, after_bom, on_word, check_bom, endian,
  refill,
}
use posixutils_rs.Iconv.Utf32.RoundTrip.{to_ucs4-from_ucs4_utf32}

abbrev text : List ℕ
text = 0x61 ∷ 0x20AC ∷ 0x1F600 ∷ []

decode_marked :
    to_ucs4 plain_order big false false utf32
      (0xFF ∷ 0xFE ∷ 0x00 ∷ 0x00 ∷ 0x00 ∷ 0xF6 ∷ 0x01 ∷ 0x00 ∷ 0x61 ∷ [])
    ≡ record { items = 0x1F600 ∷ []; errors = []; status = finished }
unfolding to_ucs4 run decode_round with_buffer after_bom on_word check_bom endian refill fill
decode_marked = refl

to_ucs4-from_ucs4_utf32_example :
    to_ucs4 plain_order big false false utf32 (from_ucs4 plain_order big true true utf32 text).items
    ≡ record { items = text; errors = []; status = finished }
to_ucs4-from_ucs4_utf32_example =
    to_ucs4-from_ucs4_utf32 plain_order big false false true true utf32 text (omega arith)
      (omega arith)

abbrev bytes : List ℕ
bytes = 0x61 ∷ 0x00 ∷ 0x00 ∷ 0x00 ∷ 0xFF ∷ 0xFF ∷ 0xFF ∷ 0xFF ∷ 0x61 ∷ []

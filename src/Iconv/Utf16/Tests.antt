-- ===== src/Iconv/Utf16/Tests.antt =====
-- The UTF-16 converters and their theorems at concrete inputs.
use posixutils_rs.Prelude.{ℕ, ◌≡◌, refl, List, [], ◌∷◌, true, false, arith}
use posixutils_rs.Iconv.Stream.{finished, run}
use posixutils_rs.Iconv.Words.{fill}
use posixutils_rs.Iconv.ByteOrder.{plain_order, little, big}
use posixutils_rs.Iconv.Utf16.{
  utf16, utf16be, unpaired_low, to_ucs4, from_ucs4, decode_round, encode_round, with_buffer,
  after_bom, on_unit, surrogate_pair, refuse, check_bom, endian, refill, to_bytes, output_variant,
}
use posixutils_rs.Iconv.Utf16.RoundTrip.{to_ucs4-from_ucs4_utf16}

abbrev text : List ℕ
text = 0x61 ∷ 0x20AC ∷ 0x1F600 ∷ []

encode_text : from_ucs4 little false false utf16be text ≡ record {
  items = 0x00 ∷ 0x61 ∷ 0x20 ∷ 0xAC ∷ 0xD8 ∷ 0x3D ∷ 0xDE ∷ 0x00 ∷ [];
  errors = [];
  status = finished;
}
unfolding from_ucs4 run encode_round to_bytes endian output_variant
encode_text = refl

decode_text :
    to_ucs4 plain_order little false false utf16
      (0xFE ∷ 0xFF ∷ 0x00 ∷ 0x61 ∷ 0x20 ∷ 0xAC ∷ 0xD8 ∷ 0x3D ∷ 0xDE ∷ 0x00 ∷ [])
    ≡ record { items = text; errors = []; status = finished }
unfolding to_ucs4 run decode_round with_buffer after_bom on_unit surrogate_pair check_bom endian
    refill fill
decode_text = refl

-- An unpaired surrogate ends the stream; the process goes on as after a good text.
decode_unpaired :
    to_ucs4 plain_order little false false utf16be (0x00 ∷ 0x61 ∷ 0xDC ∷ 0x00 ∷ 0x00 ∷ 0x62 ∷ [])
    ≡ record { items = 0x61 ∷ []; errors = unpaired_low ∷ []; status = finished }
unfolding to_ucs4 run decode_round with_buffer after_bom on_unit surrogate_pair check_bom endian
    refill fill refuse
decode_unpaired = refl

to_ucs4-from_ucs4_utf16_example :
    to_ucs4 plain_order big false false utf16 (from_ucs4 big true true utf16 text).items
    ≡ record { items = text; errors = []; status = finished }
to_ucs4-from_ucs4_utf16_example =
    to_ucs4-from_ucs4_utf16 plain_order big false false true true utf16 text (omega arith)
      (omega arith)

abbrev odd_bytes : List ℕ
odd_bytes = 0xD8 ∷ 0x3D ∷ 0x00 ∷ 0x61 ∷ 0xDC ∷ []

-- ===== src/Iconv/Utf8/Tests.antt =====
-- The UTF-8 converters and their theorems at concrete inputs.
use posixutils_rs.Prelude.{ℕ, suc, length, ◌≡◌, refl, List, [], ◌∷◌, true, false, arith}
use posixutils_rs.Iconv.Stream.{finished, exited, run}
use posixutils_rs.Iconv.Words.{fill}
use posixutils_rs.Iconv.Utf8.{
  to_ucs4, from_ucs4, decode_round, encode_round, dispatch, two, three, four, refuse, code_point_2,
  code_point_3, code_point_4, invalid_2, surrogate,
}
use posixutils_rs.Iconv.Utf8.RoundTrip.{to_ucs4-from_ucs4_utf8}
use posixutils_rs.Iconv.Utf8.Strict.{from_ucs4-to_ucs4_utf8}
use posixutils_rs.Iconv.Utf8.Plain.{plain_round, to_ucs4_plain_utf8}

-- "aé€😀"
abbrev text : List ℕ
text = 0x61 ∷ 0xE9 ∷ 0x20AC ∷ 0x1F600 ∷ []

abbrev text_bytes : List ℕ
text_bytes = 0x61 ∷ 0xC3 ∷ 0xA9 ∷ 0xE2 ∷ 0x82 ∷ 0xAC ∷ 0xF0 ∷ 0x9F ∷ 0x98 ∷ 0x80 ∷ []

decode_text :
    to_ucs4 false false text_bytes ≡ record { items = text; errors = []; status = finished }
unfolding to_ucs4 run decode_round dispatch two three four fill code_point_2 code_point_3
    code_point_4
decode_text = refl

encode_text :
    from_ucs4 false false text ≡ record { items = text_bytes; errors = []; status = finished }
unfolding from_ucs4 run encode_round
encode_text = refl

-- A bad second byte: an exit without `-c`, a byte left out with it.
decode_bad :
    to_ucs4 false false (0x61 ∷ 0xC3 ∷ 0x62 ∷ [])
    ≡ record { items = 0x61 ∷ []; errors = invalid_2 ∷ []; status = exited }
unfolding to_ucs4 run decode_round dispatch two three four fill refuse code_point_2
decode_bad = refl

decode_bad_omitted :
    to_ucs4 true false (0x61 ∷ 0xC3 ∷ 0x62 ∷ [])
    ≡ record { items = 0x61 ∷ 0x62 ∷ []; errors = []; status = finished }
unfolding to_ucs4 run decode_round dispatch two three four fill refuse code_point_2
decode_bad_omitted = refl

encode_surrogate :
    from_ucs4 false false (0xD800 ∷ 0x61 ∷ [])
    ≡ record { items = 0x61 ∷ []; errors = surrogate 0xD800 ∷ []; status = finished }
unfolding from_ucs4 run encode_round
encode_surrogate = refl

to_ucs4-from_ucs4_utf8_example :
    to_ucs4 false false (from_ucs4 true true text).items
    ≡ record { items = text; errors = []; status = finished }
to_ucs4-from_ucs4_utf8_example = to_ucs4-from_ucs4_utf8 false false true true text (omega arith)

decode_text_ends : (to_ucs4 false false text_bytes).status ≡ finished
unfolding to_ucs4 run decode_round dispatch two three four fill code_point_2 code_point_3
    code_point_4
decode_text_ends = refl

from_ucs4-to_ucs4_utf8_example :
    from_ucs4 true true (to_ucs4 false false text_bytes).items
    ≡ record { items = text_bytes; errors = []; status = finished }
from_ucs4-to_ucs4_utf8_example =
    from_ucs4-to_ucs4_utf8 false true true text_bytes (omega arith) decode_text_ends

to_ucs4_plain_utf8_example :
    to_ucs4 false false text_bytes
    ≡ run (suc (length text_bytes)) (plain_round false false) text_bytes
to_ucs4_plain_utf8_example = to_ucs4_plain_utf8 false false text_bytes

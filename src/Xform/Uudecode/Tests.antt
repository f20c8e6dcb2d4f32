-- ===== src/Xform/Uudecode/Tests.antt =====
-- `uuencode` and `uudecode` and their theorems at concrete inputs.
use posixutils_rs.Prelude.{◌≤◌, ◌≡◌, refl, [], ◌∷◌, ◌++◌, true, some, none, All, arith, length}
use posixutils_rs.Std.Strings.{Str, codes, split, lines, str_eq, without_cr}
use posixutils_rs.Std.Chunks.{chunks}
use posixutils_rs.Std.Numerals.{from_str_radix_8, octal_number, octal_digits}
use posixutils_rs.Xform.Base64.{letter_pairs}
use posixutils_rs.Xform.Uuencode.{
  historical, base64, get_header, get_permission_values, encode_chunk, encode_chunks,
  encode_historical_line, encode_line, encode_lines, trailer, encode_file,
}
use posixutils_rs.Xform.Uudecode.{
  ok, panic, dec_type_of, parse_header, decode_chunk, decode_chunks, decode_historical_line, spaced,
  check_end, historical_bytes, historical_body, body, decode_lines, decode_file,
}
use posixutils_rs.Xform.Uudecode.Octets.{IsPrintable}
use posixutils_rs.Xform.Uudecode.Body.{historical_line_bounds}
use posixutils_rs.Xform.Uudecode.RoundTrip.{decode_file-encode_file}

-- 420 is 0o644.
encode_test :
    encode_file letter_pairs historical 420 (some (codes "file")) (codes "Cat")
    ≡ codes "begin 644 file\n#0V%T\n`\nend\n"
unfolding encode_file get_header get_permission_values encode_lines encode_line
    encode_historical_line encode_chunks encode_chunk chunks trailer
encode_test = refl

decode_test :
    decode_file letter_pairs true none (codes "begin 644 file\n#0V%T\n`\nend\n")
    ≡ ok (record { out_path = codes "file"; lower_perm_bits = 420; bytes = codes "Cat" })
unfolding decode_file decode_lines lines split without_cr str_eq parse_header dec_type_of
    from_str_radix_8 octal_number octal_digits body historical_body historical_bytes
    decode_historical_line decode_chunks decode_chunk spaced check_end chunks
decode_test = refl

-- A file whose last line is missing ends where it ends; a line that is cut short panics.
decode_cut : decode_file letter_pairs true none (codes "begin 644 file\n#0V\n") ≡ panic
unfolding decode_file decode_lines lines split without_cr str_eq parse_header dec_type_of
    from_str_radix_8 octal_number octal_digits body historical_body historical_bytes
    decode_historical_line decode_chunks decode_chunk spaced check_end chunks
decode_cut = refl

decode_file-encode_file_example :
    decode_file letter_pairs true none (encode_file letter_pairs base64 420 none (codes "Cat"))
    ≡ ok (record { out_path = codes "/dev/stdout"; lower_perm_bits = 420; bytes = codes "Cat" })
decode_file-encode_file_example =
    decode_file-encode_file letter_pairs true base64 420 none none (codes "Cat") (omega arith)
      (omega arith)

historical_line_bounds_example :
    (text : Str) × (encode_historical_line (codes "Cat") ≡ text ++ 10 ∷ [])
    × All IsPrintable text
    × (length text ≤ 63)
historical_line_bounds_example = historical_line_bounds (codes "Cat") (omega arith)

-- ===== src/Xform/Uuencode.antt =====
-- xform/uuencode.rs: the header, the two encodings of a line, and `encode_file`.
use posixutils_rs.Prelude.{
  ℕ, ◌+◌, ◌-◌, ◌*◌, ◌/◌, ◌%◌, ◌^◌, List, [], ◌∷◌, ◌++◌, Option, none, some, bit_and, bit_or, ◌==◌,
  if◌then◌else◌, length, get_elem?,
}
use posixutils_rs.Std.Strings.{Str, codes}
use posixutils_rs.Std.Chunks.{chunks}
use posixutils_rs.Xform.Base64.{Base64}

pub data EncodingType : Type 0 where
  historical base64 : EncodingType

unfoldable pub get_header : EncodingType → Str
get_header historical = codes "begin"
get_header base64 = codes "begin-base64"

-- `<<` on `u8`
abbrev pub shl8 : ℕ → ℕ → ℕ
shl8 x k = x * 2 ^ k % 2 ^ 8

abbrev pub shr8 : ℕ → ℕ → ℕ
shr8 x k = x / 2 ^ k

-- A number below 8 is printed as one digit.
unfoldable pub get_permission_values : ℕ → Str
get_permission_values perm_mode =
    let others_perm = bit_and perm_mode 7 in
    let group_perm = bit_and (shr8 perm_mode 3) 7 in
    let user_perm = bit_and (shr8 perm_mode 6) 7 in
    (b'0' + user_perm) ∷ (b'0' + group_perm) ∷ (b'0' + others_perm) ∷ []

-- The mode of standard input: `RW & !umask`.
pub stdin_mode : ℕ → ℕ
stdin_mode umask = bit_and 438 (2 ^ 32 - 1 - umask)

unfoldable pub encode_base64_line : Base64 → List ℕ → Str
encode_base64_line crate line = crate.encode line ++ 10 ∷ []

-- `if *i == 32 { *i = 96 }`
abbrev pub backquoted : ℕ → ℕ
backquoted i = if i == 32 then 96 else i

-- `*in_chunk.get(i).unwrap_or(&0)`; the first byte of a chunk is always there.
abbrev pub byte_at : List ℕ → ℕ → ℕ
byte_at in_chunk i = elim (get_elem? in_chunk i) [ none ↦ 0 | some b ↦ b ]

unfoldable pub encode_chunk : List ℕ → Str
encode_chunk in_chunk =
    let a = byte_at in_chunk 0 in
    let b = byte_at in_chunk 1 in
    let c = byte_at in_chunk 2 in
    backquoted ((0x20 + bit_and (shr8 a 2) 0x3F) % 2 ^ 8)
    ∷ backquoted ((0x20 + bit_or (shl8 (bit_and a 0x03) 4) (bit_and (shr8 b 4) 0x0F)) % 2 ^ 8)
    ∷ backquoted ((0x20 + bit_or (shl8 (bit_and b 0x0F) 2) (bit_and (shr8 c 6) 0x03)) % 2 ^ 8)
    ∷ backquoted ((0x20 + bit_and c 0x3F) % 2 ^ 8)
    ∷ []

unfoldable pub encode_chunks : List (List ℕ) → Str
encode_chunks [] = []
encode_chunks (c ∷ cs) = encode_chunk c ++ encode_chunks cs

-- `line.len() as u8 + 0x20`
abbrev pub length_byte : List ℕ → ℕ
length_byte line = (length line % 2 ^ 8 + 0x20) % 2 ^ 8

unfoldable pub encode_historical_line : List ℕ → Str
encode_historical_line line = length_byte line ∷ (encode_chunks (chunks 3 line) ++ 10 ∷ [])

unfoldable pub encode_line : Base64 → EncodingType → List ℕ → Str
encode_line crate historical line = encode_historical_line line
encode_line crate base64 line = encode_base64_line crate line

unfoldable pub encode_lines : Base64 → EncodingType → List (List ℕ) → Str
encode_lines crate enc [] = []
encode_lines crate enc (line ∷ rest) = encode_line crate enc line ++ encode_lines crate enc rest

-- What follows the lines.
unfoldable pub trailer : EncodingType → Str
trailer historical = codes "`\nend"
trailer base64 = codes "===="

-- `None` is `/dev/stdout`.
abbrev pub path_of : Option Str → Str
path_of none = codes "/dev/stdout"
path_of (some path) = path

-- All that is written, the header first. `mode` is that of the file, or `stdin_mode`.
unfoldable pub encode_file : Base64 → EncodingType → ℕ → Option Str → List ℕ → Str
encode_file crate enc mode decode_path buf =
    (get_header enc
      ++ (32 ∷ (get_permission_values mode ++ (32 ∷ (path_of decode_path ++ 10 ∷ [])))))
    ++ (encode_lines crate enc (chunks 45 buf) ++ (trailer enc ++ 10 ∷ []))

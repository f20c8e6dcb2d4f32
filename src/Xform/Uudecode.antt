-- ===== src/Xform/Uudecode.antt =====
-- xform/uudecode.rs: `Header::parse`, the two decodings, and `decode_file`.
pub mod Octets
pub mod Body
pub mod RoundTrip
mod Tests
use posixutils_rs.Prelude.{
  ℕ, ◌+◌, ◌-◌, ◌/◌, ◌*◌, ◌%◌, ◌^◌, List, [], ◌∷◌, ◌++◌, Option, none, some, ◌>>=◌, Bool, ◌&&◌, ◌||◌,
  ltb, leb, bit_or, ◌==◌, if◌then◌else◌, length, get_elem?, take, map,
}
use posixutils_rs.Std.Strings.{Str, codes, str_eq, split, lines}
use posixutils_rs.Std.Chunks.{chunks}
use posixutils_rs.Std.Numerals.{from_str_radix_8}
use posixutils_rs.Xform.Base64.{Base64}
use posixutils_rs.Xform.Uuencode.{shl8, shr8}

pub data DecodingType : Type 0 where
  historical base64 : DecodingType

pub record Header : Type 0 where
  pub dec_type : DecodingType
  pub lower_perm_bits : ℕ
  pub out : Str

pub dec_type_of : Str → Option DecodingType
dec_type_of word =
    if str_eq word (codes "begin")
    then some historical
    else if str_eq word (codes "begin-base64")
    then some base64
    else none

-- `none` is a panic: an unknown type, a word that is missing, or a number that cannot be read.
pub parse_header : Str → Option Header
parse_header line = do
  let words = split 32 line
  first ← get_elem? words 0
  dec_type ← dec_type_of first
  second ← get_elem? words 1
  perm ← from_str_radix_8 second
  third ← get_elem? words 2
  some (record { dec_type = dec_type; lower_perm_bits = perm; out = third })

-- `reduce!` on `u8`: where overflow is checked, a byte below 0x20 panics; else it wraps.
abbrev pub reduce : Bool → ℕ → Option ℕ
reduce checked e = if checked && ltb e 0x20 then none else some ((e + 2 ^ 8 - 0x20) % 2 ^ 8)

-- A chunk of less than four bytes panics.
pub decode_chunk : Bool → Str → Option (List ℕ)
decode_chunk checked chunk = do
  c0 ← get_elem? chunk 0
  c1 ← get_elem? chunk 1
  r0 ← reduce checked c0
  r1 ← reduce checked c1
  c2 ← get_elem? chunk 2
  r2 ← reduce checked c2
  c3 ← get_elem? chunk 3
  r3 ← reduce checked c3
  some
      (bit_or (shl8 r0 2) (shr8 r1 4) ∷ bit_or (shl8 r1 4) (shr8 r2 2) ∷ bit_or (shl8 r2 6) r3 ∷ [])

pub decode_chunks : Bool → List Str → Option (List ℕ)
decode_chunks checked [] = some []
decode_chunks checked (c ∷ cs) = do
  out_chunk ← decode_chunk checked c
  rest ← decode_chunks checked cs
  some (out_chunk ++ rest)

pub decode_historical_line : Bool → Str → Option (List ℕ)
decode_historical_line checked line = decode_chunks checked (chunks 4 line)

-- ``line.replace("`", " ")``
pub spaced : Str → Str
spaced line = map (λ c. if c == 96 then 32 else c) line

-- `invalid_input` is the error of the `base64` crate.
pub data Result {ℓ} (A : Type ℓ) : Type ℓ where
  ok : A → Result A
  invalid_input : Result A
  panic : Result A

infixl 5 ◌>>?◌
abbrev pub ◌>>?◌ : {A B : Type 0} → Result A → (A → Result B) → Result B
ok a >>? next = next a
invalid_input >>? next = invalid_input
panic >>? next = panic

abbrev pub or_panic : {A : Type 0} → Option A → Result A
or_panic none = panic
or_panic (some a) = ok a

-- The line behind the empty one.
pub check_end : List Str → Result (List ℕ)
check_end [] = panic
check_end (end_line ∷ rest) =
    if str_eq end_line (codes "end") || str_eq end_line (codes "end\r") then ok [] else panic

-- The bytes of a line; `line[..1]` panics on an empty line and within a character of several bytes.
pub historical_bytes : Bool → Str → Option (List ℕ)
historical_bytes checked [] = none
historical_bytes checked (first ∷ line) = if leb 0x80 first then none else do
  len ← reduce checked first
  dec_out ← decode_historical_line checked line
  some (take len dec_out)

pub historical_body : Bool → List Str → Result (List ℕ)
historical_body checked [] = ok []
historical_body checked (line ∷ rest) =
    let line' = spaced line in
    let more = historical_body checked rest in
    if length line' == 1 && str_eq line' (32 ∷ [])
    then check_end rest
    else or_panic (historical_bytes checked line') >>? λ out. more >>? λ outs. ok (out ++ outs)

pub or_invalid : Option (List ℕ) → Result (List ℕ)
or_invalid none = invalid_input
or_invalid (some out) = ok out

-- `line == "====\n"` is never so: a line has no newline.
pub base64_body : Base64 → List Str → Result (List ℕ)
base64_body crate [] = ok []
base64_body crate (line ∷ rest) =
    let more = base64_body crate rest in
    if str_eq line (codes "====") || str_eq line (codes "====\n")
    then ok []
    else or_invalid (crate.decode line) >>? λ out. more >>? λ outs. ok (out ++ outs)

pub body : Base64 → Bool → DecodingType → List Str → Result (List ℕ)
body crate checked historical ls = historical_body checked ls
body crate checked base64 ls = base64_body crate ls

-- The file to write, the permissions for it and its bytes.
pub record Decoded : Type 0 where
  pub out_path : Str
  pub lower_perm_bits : ℕ
  pub bytes : List ℕ

-- `args.outfile.as_ref().unwrap_or(&header.out)`
abbrev pub out_path_of : Option Str → Str → Str
out_path_of none out = out
out_path_of (some path) out = path

pub decode_lines : Base64 → Bool → Option Str → List Str → Result Decoded
decode_lines crate checked outfile [] = panic
decode_lines crate checked outfile (line ∷ rest) = or_panic (parse_header line) >>? λ header.
    body crate checked header.dec_type rest >>? λ out. ok (record {
      out_path = out_path_of outfile header.out;
      lower_perm_bits = header.lower_perm_bits;
      bytes = out;
    })

-- From the text of the file to what is written.
pub decode_file : Base64 → Bool → Option Str → Str → Result Decoded
decode_file crate checked outfile buf = decode_lines crate checked outfile (lines buf)

-- `((mode >> 9) << 9) | lower_perm_bits`
pub new_mode : ℕ → ℕ → ℕ
new_mode mode lower_perm_bits = bit_or (mode / 2 ^ 9 * 2 ^ 9) lower_perm_bits

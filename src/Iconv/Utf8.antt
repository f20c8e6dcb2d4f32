-- ===== src/Iconv/Utf8.antt =====
-- i18n/iconv_lib/utf_8.rs: `to_ucs4` and `from_ucs4`.
mod Numbers
pub mod Encoding
mod Plain
pub mod RoundTrip
pub mod Decoding
pub mod Strict
pub mod Dropping
mod Tests
use posixutils_rs.Prelude.{
  ℕ, suc, List, [], ◌∷◌, Bool, ◌||◌, not, bit_and, bit_or, leb, ltb, ◌==◌, if◌then◌else◌, length,
}
use posixutils_rs.Iconv.Stream.{Step, emit, stop, exit, Outcome, report, run}
use posixutils_rs.Iconv.Words.{shl, shr, as_u8, contains, Reader, start, fill}

-- The lines that go to stderr.
pub data Message : Type 0 where
  incomplete_2 invalid_2 overlong_2 incomplete_3 invalid_3 invalid_sequence_3 : Message
  incomplete_4 invalid_4 invalid_code_point_4 invalid_byte : Message
  surrogate out_of_range : ℕ → Message

-- `(byte & 0xC0) != 0x80`
abbrev pub not_continuation : ℕ → Bool
not_continuation b = not (bit_and b 0xC0 == 0x80)

pub code_point_2 : ℕ → ℕ → ℕ
code_point_2 b0 b1 = bit_or (shl (bit_and b0 0x1F) 6) (bit_and b1 0x3F)

pub code_point_3 : ℕ → ℕ → ℕ → ℕ
code_point_3 b0 b1 b2 =
    bit_or (bit_or (shl (bit_and b0 0x0F) 12) (shl (bit_and b1 0x3F) 6)) (bit_and b2 0x3F)

pub code_point_4 : ℕ → ℕ → ℕ → ℕ → ℕ
code_point_4 b0 b1 b2 b3 =
    bit_or
      (bit_or (bit_or (shl (bit_and b0 0x07) 18) (shl (bit_and b1 0x3F) 12))
        (shl (bit_and b2 0x3F) 6))
      (bit_and b3 0x3F)

-- One round of the loop once the buffer is filled. `put` puts the bytes that `drain` or `clear`
-- leaves back into the state.
module _ {S : Type 0} (omit_invalid suppress_error : Bool) (put : List ℕ → S) where
  -- `if omit_invalid { …; continue } else { …; exit(1) }`
  pub refuse : Message → List ℕ → Step Message S
  refuse m left = if omit_invalid then emit [] [] (put left) else exit (report suppress_error m)

  pub two : List ℕ → Step Message S
  two (b0 ∷ b1 ∷ rest) =
      let code_point = code_point_2 b0 b1 in
      if not_continuation b1
      then refuse invalid_2 (b1 ∷ rest)
      else if ltb code_point 0x80
      then refuse overlong_2 rest
      else emit (code_point ∷ []) [] (put rest)
  two _ = refuse incomplete_2 []

  pub three : List ℕ → Step Message S
  three (b0 ∷ b1 ∷ b2 ∷ rest) =
      let code_point = code_point_3 b0 b1 b2 in
      if not_continuation b1 || not_continuation b2
      then refuse invalid_3 (b1 ∷ b2 ∷ rest)
      else if ltb code_point 0x800 || contains 0xD800 0xDFFF code_point
      then refuse invalid_sequence_3 rest
      else emit (code_point ∷ []) [] (put rest)
  three _ = refuse incomplete_3 []

  pub four : List ℕ → Step Message S
  four (b0 ∷ b1 ∷ b2 ∷ b3 ∷ rest) =
      let code_point = code_point_4 b0 b1 b2 b3 in
      if not_continuation b1 || not_continuation b2 || not_continuation b3
      then refuse invalid_4 (b1 ∷ b2 ∷ b3 ∷ rest)
      else if not (contains 0x10000 0x10FFFF code_point)
      then refuse invalid_code_point_4 rest
      else emit (code_point ∷ []) [] (put rest)
  four _ = refuse incomplete_4 []

abbrev pub put_buffer : Reader → List ℕ → Reader
put_buffer r b = record r { buffer = b }

-- The branches on the first byte; `two`, `three` and `four` see the buffer topped up.
pub dispatch : Bool → Bool → Reader → List ℕ → Step Message Reader
dispatch omit quiet r [] = stop []
dispatch omit quiet r (byte ∷ rest) =
    if leb byte 0x7F
    then emit (byte ∷ []) [] (put_buffer r rest)
    else if contains 0xC0 0xDF byte
    then (let r' = fill 2 r in two omit quiet (put_buffer r') r'.buffer)
    else if contains 0xE0 0xEF byte
    then (let r' = fill 3 r in three omit quiet (put_buffer r') r'.buffer)
    else if contains 0xF0 0xF4 byte
    then (let r' = fill 4 r in four omit quiet (put_buffer r') r'.buffer)
    else refuse omit quiet (put_buffer r) invalid_byte rest

-- `if buffer.is_empty() { buffer.extend(input.by_ref().take(4)) }`
abbrev pub refill : Reader → Reader
refill r = elim r.buffer [ [] ↦ fill 4 r | b ∷ bs ↦ r ]

-- The body of the `loop`.
pub decode_round : Bool → Bool → Reader → Step Message Reader
decode_round omit quiet r = let r' = refill r in dispatch omit quiet r' r'.buffer

-- A round takes a byte at least, so the rounds are enough.
pub to_ucs4 : Bool → Bool → List ℕ → Outcome Message
to_ucs4 omit quiet input = run (suc (length input)) (decode_round omit quiet) (start input)

-- The closure of `flat_map`, on a code point that is followed by `rest`.
pub encode_round : Bool → Bool → List ℕ → Step Message (List ℕ)
encode_round omit quiet [] = stop []
encode_round omit quiet (code_point ∷ rest) =
    if leb code_point 0x7F
    then emit (as_u8 code_point ∷ []) [] rest
    else if leb code_point 0x7FF
    then emit
        (bit_or 0xC0 (as_u8 (shr code_point 6))
          ∷ bit_or 0x80 (as_u8 (bit_and code_point 0x3F))
          ∷ [])
        [] rest
    else if leb code_point 0xFFFF
    then (if contains 0xD800 0xDFFF code_point
        then emit [] (report quiet (surrogate code_point)) rest
        else emit
            (bit_or 0xE0 (as_u8 (shr code_point 12))
              ∷ bit_or 0x80 (as_u8 (bit_and (shr code_point 6) 0x3F))
              ∷ bit_or 0x80 (as_u8 (bit_and code_point 0x3F))
              ∷ [])
            [] rest)
    else if leb code_point 0x10FFFF
    then emit
        (bit_or 0xF0 (as_u8 (shr code_point 18))
          ∷ bit_or 0x80 (as_u8 (bit_and (shr code_point 12) 0x3F))
          ∷ bit_or 0x80 (as_u8 (bit_and (shr code_point 6) 0x3F))
          ∷ bit_or 0x80 (as_u8 (bit_and code_point 0x3F))
          ∷ [])
        [] rest
    else if omit
    then emit [] [] rest
    else if quiet
    then emit [] [] rest
    else exit (out_of_range code_point ∷ [])

pub from_ucs4 : Bool → Bool → List ℕ → Outcome Message
from_ucs4 omit quiet code_points =
    run (suc (length code_points)) (encode_round omit quiet) code_points

-- ===== src/Iconv/Utf32.antt =====
-- i18n/iconv_lib/utf_32.rs: `to_ucs4`, `from_ucs4` and `write_u32`.
pub mod RoundTrip
pub mod Decoding
mod Tests
use posixutils_rs.Prelude.{
  ℕ, suc, List, [], ◌∷◌, ◌++◌, Bool, true, false, leb, ltb, ◌==◌, if◌then◌else◌, length, Option,
  none, some,
}
use posixutils_rs.Iconv.Stream.{Step, emit, stop, exit, panic, Outcome, report, run}
use posixutils_rs.Iconv.Words.{Reader, start, fill}
use posixutils_rs.Iconv.ByteOrder.{ByteOrder, Endian, little, big}

pub data Variant : Type 0 where
  utf32le utf32be utf32 : Variant

abbrev pub bom : ℕ
bom = 0x0000FEFF

abbrev pub bom_oe : ℕ
bom_oe = 0xFFFE0000

pub data Message : Type 0 where
  invalid_code_point : ℕ → Message

unfoldable pub native : Endian → Variant
native little = utf32le
native big = utf32be

-- `none` is `unreachable!()`.
unfoldable pub endian : Variant → Option Endian
endian utf32le = some little
endian utf32be = some big
endian utf32 = none

pub record State : Type 0 where
  pub reader : Reader
  pub variant : Variant
  pub bom_checked : Bool

-- The variant after the test for a byte order mark, and whether the mark is cleared away.
pub check_bom : Endian → Variant → Bool → ℕ → Variant × Bool
check_bom target variant true first_word = (variant, false)
check_bom target utf32 false first_word =
    if first_word == bom
    then (utf32be, true)
    else if first_word == bom_oe
    then (utf32le, true)
    else (native target, false)
check_bom target variant false first_word = (variant, false)

module _ {S : Type 0} (crate : ByteOrder) (omit_invalid suppress_error : Bool) where
  -- The branches on the code point, behind `buffer.clear()`, which leaves the state `s`.
  pub on_word : S → Option Endian → ℕ → ℕ → ℕ → ℕ → Step Message S
  on_word s none b0 b1 b2 b3 = panic
  on_word s (some e) b0 b1 b2 b3 =
      let code_point = crate.read_u32 e b0 b1 b2 b3 in
      if leb 0x110000 code_point
      then (if omit_invalid
          then emit [] (report suppress_error (invalid_code_point code_point)) s
          else stop (report suppress_error (invalid_code_point code_point)))
      else emit (code_point ∷ []) [] s

  pub after_bom : (Variant → S) → ℕ → ℕ → ℕ → ℕ → Variant × Bool → Step Message S
  after_bom put b0 b1 b2 b3 (v, true) = emit [] [] (put v)
  after_bom put b0 b1 b2 b3 (v, false) = on_word (put v) (endian v) b0 b1 b2 b3

  -- A round on a buffer that was filled if it held less than four bytes.
  pub with_buffer : Endian → Variant → Bool → (Variant → List ℕ → S) → List ℕ → Step Message S
  with_buffer target variant checked put (b0 ∷ b1 ∷ b2 ∷ b3 ∷ rest) =
      after_bom (λ v. put v rest) b0 b1 b2 b3
        (check_bom target variant checked (crate.read_u32 big b0 b1 b2 b3))
  with_buffer target variant checked put _ = stop []

-- `buffer.clear()`: whatever follows the word is dropped, which is nothing, since the buffer never holds
-- more than four bytes.
abbrev pub put_state : Reader → Variant → List ℕ → State
put_state r v rest = record { reader = record r { buffer = [] }; variant = v; bom_checked = true }

-- `if buffer.len() < 4 { buffer.extend(input.by_ref().take(4 - buffer.len())) }`
unfoldable pub refill : Reader → Reader
refill r = if ltb (length r.buffer) 4 then fill 4 r else r

module _ (crate : ByteOrder) (target : Endian) (omit quiet : Bool) where
  pub decode_round : State → Step Message State
  decode_round s =
      let r = refill s.reader in
      with_buffer crate omit quiet target s.variant s.bom_checked (put_state r) r.buffer

  -- A round takes four bytes, so the rounds are enough.
  pub to_ucs4 : Variant → List ℕ → Outcome Message
  to_ucs4 variant input =
      run (suc (length input)) decode_round
        (record { reader = start input; variant = variant; bom_checked = false })

-- The variant that `from_ucs4` writes.
unfoldable pub output_variant : Endian → Variant → Variant
output_variant target utf32 = native target
output_variant target v = v

module _ (crate : ByteOrder) (omit quiet : Bool) where
  pub write_u32 : List ℕ → ℕ → Option Endian → Step Message (List ℕ)
  write_u32 rest cp none = panic
  write_u32 rest cp (some e) = emit (crate.write_u32 e cp) [] rest

  -- The closure, with the bytes of `buf` given out in one step.
  pub encode_round : Variant → List ℕ → Step Message (List ℕ)
  encode_round variant [] = stop []
  encode_round variant (cp ∷ rest) =
      if ltb 0x10FFFF cp
      then (if omit then emit [] [] rest else exit (report quiet (invalid_code_point cp)))
      else write_u32 rest cp (endian variant)

pub from_ucs4 : ByteOrder → Endian → Bool → Bool → Variant → List ℕ → Outcome Message
from_ucs4 crate target omit quiet variant code_points =
    run (suc (length code_points)) (encode_round crate omit quiet (output_variant target variant))
      code_points

-- ===== src/Iconv/Utf16.antt =====
-- i18n/iconv_lib/utf_16.rs: `to_ucs4`, `from_ucs4` and `to_bytes`.
mod Plain
pub mod Encoding
pub mod RoundTrip
pub mod Decoding
pub mod Dropping
mod Tests
use posixutils_rs.Prelude.{
  ℕ, suc, ◌+◌, ◌-◌, ◌%◌, ◌^◌, List, [], ◌∷◌, ◌++◌, Bool, true, false, ◌||◌, not, bit_and, leb, ltb,
  ◌==◌, if◌then◌else◌, length, Option, none, some, ◌>>=◌,
}
use posixutils_rs.Iconv.Stream.{Step, emit, stop, exit, panic, Outcome, report, run}
use posixutils_rs.Iconv.Words.{shl, shr, as_u16, contains, Reader, start, fill}
use posixutils_rs.Iconv.ByteOrder.{ByteOrder, Endian, little, big, u16_bytes}

pub data Variant : Type 0 where
  utf16le utf16be utf16 : Variant

abbrev pub bom : ℕ
bom = 0xFEFF

abbrev pub bom_swapped : ℕ
bom_swapped = 0xFFFE

-- The lines that go to stderr.
pub data Message : Type 0 where
  unpaired_at_end invalid_low unpaired_low : Message
  isolated_surrogate invalid_code_point : ℕ → Message

-- `cfg!(target_endian = "little")` chooses the variant of the machine.
pub native : Endian → Variant
native little = utf16le
native big = utf16be

-- `none` is `unreachable!()`.
pub endian : Variant → Option Endian
endian utf16le = some little
endian utf16be = some big
endian utf16 = none

-- The variables that the closure owns.
pub record State : Type 0 where
  pub reader : Reader
  pub determined_variant : Variant
  pub bom_checked : Bool

-- Which variant holds after the test for a byte order mark, and whether the mark is drained.
pub check_bom : ByteOrder → Endian → Variant → Variant → Bool → ℕ → ℕ → Variant × Bool
check_bom crate target variant determined true b0 b1 = (determined, false)
check_bom crate target utf16 determined false b0 b1 =
    let first_word = crate.read_u16 big b0 b1 in
    if first_word == bom
    then (utf16be, true)
    else if first_word == bom_swapped
    then (utf16le, true)
    else (native target, false)
check_bom crate target _ determined false b0 b1 = (determined, false)

module _ {S : Type 0} (crate : ByteOrder) (omit_invalid suppress_error : Bool) where
  -- `if omit_invalid { …; continue } else { …; return None }`
  pub refuse : Message → S → Step Message S
  refuse m s = if omit_invalid then emit [] [] s else stop (report suppress_error m)

  -- The rest of a round after a high surrogate, on the buffer topped up to four bytes.
  pub surrogate_pair : Endian → (List ℕ → S) → ℕ → List ℕ → Step Message S
  surrogate_pair e put code_unit (b0 ∷ b1 ∷ b2 ∷ b3 ∷ rest) =
      let low_surrogate = crate.read_u16 e b2 b3 in
      if not (contains 0xDC00 0xDFFF low_surrogate)
      then refuse invalid_low (put (b2 ∷ b3 ∷ rest))
      else emit ((shl (code_unit - 0xD800) 10 + (low_surrogate - 0xDC00) + 0x10000) ∷ []) []
          (put rest)
  surrogate_pair e put code_unit _ = refuse unpaired_at_end (put [])

  -- The branches on the code unit; `pair` is the branch of the high surrogates.
  pub on_unit :
      (Endian → ℕ → Step Message S) → (List ℕ → S) → ℕ → ℕ → List ℕ → Option Endian → Step Message S
  on_unit pair put b0 b1 rest none = panic
  on_unit pair put b0 b1 rest (some e) =
      let code_unit = crate.read_u16 e b0 b1 in
      if contains 0xD800 0xDBFF code_unit
      then pair e code_unit
      else if contains 0xDC00 0xDFFF code_unit
      then refuse unpaired_low (put rest)
      else emit (code_unit ∷ []) [] (put rest)

  pub after_bom :
      (Variant → Endian → ℕ → Step Message S)
      → (Variant → List ℕ → S)
      → ℕ
      → ℕ
      → List ℕ
      → Variant × Bool
      → Step Message S
  after_bom pair put b0 b1 rest (d, true) = emit [] [] (put d rest)
  after_bom pair put b0 b1 rest (d, false) = on_unit (pair d) (put d) b0 b1 rest (endian d)

  -- A round on a buffer that was filled if it held less than two bytes. `put` gives the state back.
  pub with_buffer :
      Endian
      → Variant
      → Variant
      → Bool
      → (Variant → Endian → ℕ → Step Message S)
      → (Variant → List ℕ → S)
      → List ℕ
      → Step Message S
  with_buffer target variant determined checked pair put (b0 ∷ b1 ∷ rest) =
      after_bom pair put b0 b1 rest (check_bom crate target variant determined checked b0 b1)
  with_buffer target variant determined checked pair put _ = stop []

abbrev pub put_state : Reader → Variant → List ℕ → State
put_state r d b = record {
  reader = record r { buffer = b };
  determined_variant = d;
  bom_checked = true;
}

-- `if buffer.len() < 2 { buffer.extend(input.by_ref().take(4 - buffer.len())) }`
unfoldable pub refill : Reader → Reader
refill r = if ltb (length r.buffer) 2 then fill 4 r else r

module _ (crate : ByteOrder) (target : Endian) (omit quiet : Bool) (variant : Variant) where
  -- The body of the `loop`.
  pub decode_round : State → Step Message State
  decode_round s =
      let r = refill s.reader in
      let r' = fill 4 r in
      with_buffer crate omit quiet target variant s.determined_variant s.bom_checked
        (λ d e u. surrogate_pair crate omit quiet e (put_state r' d) u r'.buffer) (put_state r)
        r.buffer

  -- A round takes a byte at least, so the rounds are enough.
  pub to_ucs4 : List ℕ → Outcome Message
  to_ucs4 input =
      run (suc (length input)) decode_round
        (record { reader = start input; determined_variant = variant; bom_checked = false })

-- `to_bytes` of one code unit.
abbrev unit_bytes : Option Endian → ℕ → Option (List ℕ)
unit_bytes none u = none
unit_bytes (some e) u = some (u16_bytes e u)

pub to_bytes : Option Endian → List ℕ → Option (List ℕ)
to_bytes e [] = some []
to_bytes e (u ∷ us) = do xs ← unit_bytes e u; ys ← to_bytes e us; some (xs ++ ys)

abbrev emit_bytes : List ℕ → Option (List ℕ) → Step Message (List ℕ)
emit_bytes rest none = panic
emit_bytes rest (some bytes) = emit bytes [] rest

-- The variant that `from_ucs4` writes.
pub output_variant : Endian → Variant → Variant
output_variant target utf16 = native target
output_variant target v = v

module _ (omit quiet : Bool) (variant : Variant) where
  -- `if !omit_invalid { return Vec::new(); } else { …; exit(1) }`
  pub reject : Message → List ℕ → Step Message (List ℕ)
  reject m rest = if not omit then emit [] [] rest else exit (report quiet m)

  -- The closure of `flat_map`, on a code point that is followed by `rest`.
  pub encode_round : List ℕ → Step Message (List ℕ)
  encode_round [] = stop []
  encode_round (code_point ∷ rest) =
      let offset = code_point - 0x10000 in
      let high_surrogate = (as_u16 (shr offset 10) + 0xD800) % 2 ^ 16 in
      let low_surrogate = (as_u16 (bit_and offset 0x3FF) + 0xDC00) % 2 ^ 16 in
      if leb code_point 0xD7FF || contains 0xE000 0xFFFF code_point
      then emit_bytes rest (to_bytes (endian variant) (as_u16 code_point ∷ []))
      else if contains 0xD800 0xDFFF code_point
      then reject (isolated_surrogate code_point) rest
      else if leb code_point 0x10FFFF
      then emit_bytes rest (to_bytes (endian variant) (high_surrogate ∷ low_surrogate ∷ []))
      else reject (invalid_code_point code_point) rest

pub from_ucs4 : Endian → Bool → Bool → Variant → List ℕ → Outcome Message
from_ucs4 target omit quiet variant code_points =
    run (suc (length code_points)) (encode_round omit quiet (output_variant target variant))
      code_points

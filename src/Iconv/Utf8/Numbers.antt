-- ===== src/Iconv/Utf8/Numbers.antt =====
-- The bit expressions of utf_8.rs as arithmetic.
use posixutils_rs.Prelude.{
  ℕ, ◌+◌, ◌*◌, ◌/◌, ◌%◌, ◌^◌, ◌<◌, ◌≡◌, bit_and, bit_or, leb, ltb, arith, ◌∙◌, ◌||◌,
}
use posixutils_rs.Prelude.Bits.{bit_or_field, bit_and_low, bit_and_top2}
use posixutils_rs.Iconv.Words.{shl, shr, as_u8, IsByte}
use posixutils_rs.Iconv.Utf8.{not_continuation, code_point_2, code_point_3, code_point_4}
use native.Mathlib.Nat.{mod-eq_of_lt}

or-shl : (k x r : ℕ) → x * 2 ^ k < 2 ^ 32 → r < 2 ^ k → bit_or (shl x k) r ≡ x * 2 ^ k + r
or-shl k x r h hr = rw (mod-eq_of_lt h) (bit_or_field k x r hr)

pub code_point_2_lem : (b0 b1 : ℕ) → code_point_2 b0 b1 ≡ b0 % 32 * 64 + b1 % 64
unfolding code_point_2
code_point_2_lem b0 b1 =
    rw (bit_and_low 5 b0, bit_and_low 6 b1)
      (or-shl 6 (b0 % 32) (b1 % 64) (omega arith) (omega arith))

pub code_point_3_lem :
    (b0 b1 b2 : ℕ) → code_point_3 b0 b1 b2 ≡ b0 % 16 * 4096 + b1 % 64 * 64 + b2 % 64
unfolding code_point_3
code_point_3_lem b0 b1 b2 =
    rw (bit_and_low 4 b0, bit_and_low 6 b1, bit_and_low 6 b2)
      let e : bit_or (shl (b0 % 16) 12) (shl (b1 % 64) 6) ≡ (b0 % 16 * 64 + b1 % 64) * 64 =
          or-shl 12 (b0 % 16) (shl (b1 % 64) 6) (omega arith) (omega arith) ∙ omega arith in
        rw e (bit_or_field 6 (b0 % 16 * 64 + b1 % 64) (b2 % 64) (omega arith) ∙ omega arith)

pub code_point_4_lem :
    (b0 b1 b2 b3 : ℕ)
    → code_point_4 b0 b1 b2 b3 ≡ b0 % 8 * 262144 + b1 % 64 * 4096 + b2 % 64 * 64 + b3 % 64
unfolding code_point_4
code_point_4_lem b0 b1 b2 b3 =
    rw (bit_and_low 3 b0, bit_and_low 6 b1, bit_and_low 6 b2, bit_and_low 6 b3)
      let e : bit_or (shl (b0 % 8) 18) (shl (b1 % 64) 12) ≡ (b0 % 8 * 64 + b1 % 64) * 4096 =
          or-shl 18 (b0 % 8) (shl (b1 % 64) 12) (omega arith) (omega arith) ∙ omega arith in
        let d : bit_or ((b0 % 8 * 64 + b1 % 64) * 4096) (shl (b2 % 64) 6)
            ≡ ((b0 % 8 * 64 + b1 % 64) * 64 + b2 % 64) * 64 =
          bit_or_field 12 (b0 % 8 * 64 + b1 % 64) (shl (b2 % 64) 6) (omega arith) ∙ omega arith in
        rw (e, d)
          (bit_or_field 6 ((b0 % 8 * 64 + b1 % 64) * 64 + b2 % 64) (b3 % 64) (omega arith)
            ∙ omega arith)

pub not_continuation_lem : (b : ℕ) → IsByte b → not_continuation b ≡ (ltb b 128 || leb 192 b)
not_continuation_lem b h = rw (bit_and_top2 b h) (ground arith)

-- `0x80 | (x & 0x3F) as u8`
pub trail : (x : ℕ) → bit_or 0x80 (as_u8 (bit_and x 0x3F)) ≡ 128 + x % 64
trail x = rw (bit_and_low 6 x) (bit_or_field 6 2 (x % 64 % 256) (omega arith) ∙ omega arith)

pub lead_2 : (c : ℕ) → c < 0x800 → bit_or 0xC0 (as_u8 (shr c 6)) ≡ 192 + c / 64
lead_2 c h = bit_or_field 5 6 (c / 64 % 256) (omega arith) ∙ omega arith

pub lead_3 : (c : ℕ) → c < 0x10000 → bit_or 0xE0 (as_u8 (shr c 12)) ≡ 224 + c / 4096
lead_3 c h = bit_or_field 4 14 (c / 4096 % 256) (omega arith) ∙ omega arith

pub lead_4 : (c : ℕ) → c < 0x110000 → bit_or 0xF0 (as_u8 (shr c 18)) ≡ 240 + c / 262144
lead_4 c h = bit_or_field 3 30 (c / 262144 % 256) (omega arith) ∙ omega arith

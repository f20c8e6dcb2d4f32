-- ===== src/Xform/Uudecode/Octets.antt =====
-- One chunk: three bytes, their four characters, and the bytes again.
use posixutils_rs.Prelude.{
  ℕ, ◌+◌, ◌*◌, ◌/◌, ◌%◌, ◌^◌, ◌<◌, ◌≤◌, ◌≡◌, ◌∙◌, refl, List, [], ◌∷◌, Bool, true, false, ◌==◌,
  if◌then◌else◌, some, bit_and, bit_or, arith, All,
}
use posixutils_rs.Prelude.Bits.{bit_and_low, bit_or_field}
use posixutils_rs.Xform.Uuencode.{shl8, shr8, backquoted, byte_at, encode_chunk}
use posixutils_rs.Xform.Uudecode.{reduce, decode_chunk, spaced}

-- What the decoder makes of the character of `x`.
reduced : (checked : Bool) (x : ℕ) → x < 64 → reduce checked (0x20 + x) ≡ some x
reduced true x h = ground arith
reduced false x h = ground arith

abbrev space_of : ℕ → ℕ
space_of c = if c == 96 then 32 else c

space_of-backquoted : (x : ℕ) → x < 64 → space_of (backquoted ((0x20 + x) % 2 ^ 8)) ≡ 0x20 + x
space_of-backquoted x h = ground arith

-- A character of the historical encoding: from `!` to the backquote.
abbrev pub IsPrintable : ℕ → Type 0
IsPrintable c = (33 ≤ c) × (c ≤ 96)

backquoted-IsPrintable : (x : ℕ) → x < 64 → IsPrintable (backquoted ((0x20 + x) % 2 ^ 8))
backquoted-IsPrintable x h = ground arith

-- Joining a quotient and a remainder by `|`.
join : (k q r n : ℕ) → r < 2 ^ k → q * 2 ^ k + r ≡ n → bit_or (q * 2 ^ k) r ≡ n
join k q r n h e = bit_or_field k q r h ∙ e

-- The characters of a chunk, with spaces for the backquotes.
abbrev pub characters : ℕ → ℕ → ℕ → List ℕ
characters a b c =
    (0x20 + a / 4)
    ∷ (0x20 + (a % 4 * 16 + b / 16))
    ∷ (0x20 + (b % 16 * 4 + c / 64))
    ∷ (0x20 + c % 64)
    ∷ []

module _ (a b c : ℕ) (ha : a < 256) (hb : b < 256) (hc : c < 256) where
  first_sextet : bit_and (shr8 a 2) 0x3F ≡ a / 4
  first_sextet = bit_and_low 6 (a / 4) ∙ omega arith

  second_sextet : bit_or (shl8 (bit_and a 0x03) 4) (bit_and (shr8 b 4) 0x0F) ≡ a % 4 * 16 + b / 16
  second_sextet =
      let high : bit_and a 3 * 16 % 256 ≡ a % 4 * 2 ^ 4 = omega (arith, bit_and_low 2 a) in
      let low : bit_and (b / 16) 15 ≡ b / 16 = bit_and_low 4 (b / 16) ∙ omega arith in
      rw (high, low) (bit_or_field 4 (a % 4) (b / 16) (omega arith))

  third_sextet : bit_or (shl8 (bit_and b 0x0F) 2) (bit_and (shr8 c 6) 0x03) ≡ b % 16 * 4 + c / 64
  third_sextet =
      let high : bit_and b 15 * 4 % 256 ≡ b % 16 * 2 ^ 2 = omega (arith, bit_and_low 4 b) in
      let low : bit_and (c / 64) 3 ≡ c / 64 = bit_and_low 2 (c / 64) ∙ omega arith in
      rw (high, low) (bit_or_field 2 (b % 16) (c / 64) (omega arith))

  fourth_sextet : bit_and c 0x3F ≡ c % 64
  fourth_sextet = bit_and_low 6 c

  first_byte : bit_or (shl8 (a / 4) 2) (shr8 (a % 4 * 16 + b / 16) 4) ≡ a
  first_byte =
      let high : a / 4 * 4 % 256 ≡ a / 4 * 2 ^ 2 = omega arith in
      let low : (a % 4 * 16 + b / 16) / 16 ≡ a % 4 = omega arith in
      rw (high, low) (join 2 (a / 4) (a % 4) a (omega arith) (omega arith))

  second_byte : bit_or (shl8 (a % 4 * 16 + b / 16) 4) (shr8 (b % 16 * 4 + c / 64) 2) ≡ b
  second_byte =
      let high : (a % 4 * 16 + b / 16) * 16 % 256 ≡ b / 16 * 2 ^ 4 = omega arith in
      let low : (b % 16 * 4 + c / 64) / 4 ≡ b % 16 = omega arith in
      rw (high, low) (join 4 (b / 16) (b % 16) b (omega arith) (omega arith))

  third_byte : bit_or (shl8 (b % 16 * 4 + c / 64) 6) (c % 64) ≡ c
  third_byte =
      let high : (b % 16 * 4 + c / 64) * 64 % 256 ≡ c / 64 * 2 ^ 6 = omega arith in
      rw high (join 6 (c / 64) (c % 64) c (omega arith) (omega arith))

  pub spaced-chunk :
      (s : List ℕ)
      → byte_at s 0 ≡ a
      → byte_at s 1 ≡ b
      → byte_at s 2 ≡ c
      → spaced (encode_chunk s) ≡ characters a b c
  unfolding spaced encode_chunk
  spaced-chunk s e0 e1 e2 =
      rw (e0, e1, e2, first_sextet, second_sextet, third_sextet, fourth_sextet)
        (rw
          (
            space_of-backquoted (a / 4) (omega arith),
            space_of-backquoted (a % 4 * 16 + b / 16) (omega arith),
            space_of-backquoted (b % 16 * 4 + c / 64) (omega arith),
            space_of-backquoted (c % 64) (omega arith),
          )
          refl)

  pub decode_chunk-characters :
      (checked : Bool) → decode_chunk checked (characters a b c) ≡ some (a ∷ b ∷ c ∷ [])
  unfolding decode_chunk
  decode_chunk-characters checked =
      rw
        (
          reduced checked (a / 4) (omega arith),
          reduced checked (a % 4 * 16 + b / 16) (omega arith),
          reduced checked (b % 16 * 4 + c / 64) (omega arith),
          reduced checked (c % 64) (omega arith),
          first_byte,
          second_byte,
          third_byte,
        )
        refl

  pub chunk-IsPrintable :
      (s : List ℕ)
      → byte_at s 0 ≡ a
      → byte_at s 1 ≡ b
      → byte_at s 2 ≡ c
      → All IsPrintable (encode_chunk s)
  unfolding encode_chunk
  chunk-IsPrintable s e0 e1 e2 =
      rw (e0, e1, e2, first_sextet, second_sextet, third_sextet, fourth_sextet)
        (
          backquoted-IsPrintable (a / 4) (omega arith),
          (
            backquoted-IsPrintable (a % 4 * 16 + b / 16) (omega arith),
            (
              backquoted-IsPrintable (b % 16 * 4 + c / 64) (omega arith),
              (backquoted-IsPrintable (c % 64) (omega arith), tt),
            ),
          ),
        )

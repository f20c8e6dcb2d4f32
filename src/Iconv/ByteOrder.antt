-- ===== src/Iconv/ByteOrder.antt =====
-- The `byteorder` crate, which utf_16.rs and utf_32.rs call: its functions are parameters, and their
-- documented results are laws.
use posixutils_rs.Prelude.{ℕ, ◌+◌, ◌*◌, ◌/◌, ◌%◌, ◌≡◌, refl, List, [], ◌∷◌}

pub data Endian : Type 0 where
  little big : Endian

-- Two bytes of a `u16`, four bytes of a `u32`, in the order in which they stand in memory.
abbrev pub u16_bytes : Endian → ℕ → List ℕ
u16_bytes little w = (w % 256) ∷ (w / 256 % 256) ∷ []
u16_bytes big w = (w / 256 % 256) ∷ (w % 256) ∷ []

abbrev pub u32_bytes : Endian → ℕ → List ℕ
u32_bytes little w = (w % 256) ∷ (w / 256 % 256) ∷ (w / 65536 % 256) ∷ (w / 16777216 % 256) ∷ []
u32_bytes big w = (w / 16777216 % 256) ∷ (w / 65536 % 256) ∷ (w / 256 % 256) ∷ (w % 256) ∷ []

pub record ByteOrder : Type 0 where
  -- `LittleEndian::read_u16`, `BigEndian::read_u16`, and so on
  pub read_u16 : Endian → ℕ → ℕ → ℕ
  pub read_u32 : Endian → ℕ → ℕ → ℕ → ℕ → ℕ
  pub write_u32 : Endian → ℕ → List ℕ
  pub read_u16_little : (a b : ℕ) → read_u16 little a b ≡ b * 256 + a
  pub read_u16_big : (a b : ℕ) → read_u16 big a b ≡ a * 256 + b
  pub read_u32_little :
      (a b c d : ℕ) → read_u32 little a b c d ≡ d * 16777216 + c * 65536 + b * 256 + a
  pub read_u32_big : (a b c d : ℕ) → read_u32 big a b c d ≡ a * 16777216 + b * 65536 + c * 256 + d
  pub write_u32_lem : (e : Endian) (w : ℕ) → write_u32 e w ≡ u32_bytes e w

abbrev word_16 : Endian → ℕ → ℕ → ℕ
word_16 little a b = b * 256 + a
word_16 big a b = a * 256 + b

abbrev word_32 : Endian → ℕ → ℕ → ℕ → ℕ → ℕ
word_32 little a b c d = d * 16777216 + c * 65536 + b * 256 + a
word_32 big a b c d = a * 16777216 + b * 65536 + c * 256 + d

-- The laws can be met.
abbrev pub plain_order : ByteOrder
plain_order = record {
  read_u16 = word_16;
  read_u32 = word_32;
  write_u32 = u32_bytes;
  read_u16_little = λ a b. refl;
  read_u16_big = λ a b. refl;
  read_u32_little = λ a b c d. refl;
  read_u32_big = λ a b c d. refl;
  write_u32_lem = λ e w. refl;
}

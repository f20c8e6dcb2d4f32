-- ===== src/Iconv/Words.antt =====
-- What the converters do with `u8`, `u16` and `u32` values, and the read-ahead buffer that they share.
pub mod Laws
pub mod Scalars
use posixutils_rs.Prelude.{
  ℕ, ◌-◌, ◌*◌, ◌/◌, ◌%◌, ◌^◌, ◌<◌, ◌⊎◌, List, [], ◌++◌, Bool, ◌&&◌, leb, length, take, drop,
}

-- `x << k` on `u32` drops what leaves the word.
abbrev pub shl : ℕ → ℕ → ℕ
shl x k = x * 2 ^ k % 2 ^ 32

abbrev pub shr : ℕ → ℕ → ℕ
shr x k = x / 2 ^ k

-- `x as u8`, `x as u16`
abbrev pub as_u8 : ℕ → ℕ
as_u8 x = x % 2 ^ 8

abbrev pub as_u16 : ℕ → ℕ
as_u16 x = x % 2 ^ 16

-- `(lo..=hi).contains(&x)`
abbrev pub contains : ℕ → ℕ → ℕ → Bool
contains lo hi x = leb lo x && leb x hi

abbrev pub IsByte : ℕ → Type 0
IsByte b = b < 256

-- A Unicode scalar value: no surrogate, at most U+10FFFF.
abbrev pub IsScalar : ℕ → Type 0
IsScalar c = (c < 0xD800) ⊎ ((0xDFFF < c) × (c < 0x110000))

-- The bytes that were taken from the input, and the bytes that were not.
pub record Reader : Type 0 where
  pub buffer : List ℕ
  pub input : List ℕ

abbrev pub start : List ℕ → Reader
start input = record { buffer = []; input = input }

-- `buffer.extend(input.by_ref().take(n - buffer.len()))`
unfoldable pub fill : ℕ → Reader → Reader
fill n r =
    let k = n - length r.buffer in
    record { buffer = r.buffer ++ take k r.input; input = drop k r.input }

-- What is still to be read.
abbrev pub stream : Reader → List ℕ
stream r = r.buffer ++ r.input

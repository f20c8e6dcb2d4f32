-- ===== src/Xform/Crc32.antt =====
-- xform/crc32.rs and the loop of xform/cksum.rs. `none` is a panic; a read is the bytes that it returns.
pub mod Table
pub mod Bitwise
pub mod Checksum
mod Tests
use posixutils_rs.Prelude.{
  ℕ, zero, suc, ◌+◌, ◌-◌, ◌*◌, ◌/◌, ◌%◌, ◌^◌, List, [], ◌∷◌, ◌==◌, if◌then◌else◌, Option, none,
  some, ◌>>=◌, length, get_elem?, bit_and, bit_xor,
}
use Table.{crctab}

-- The body of the loops: the byte `c` goes into the register `s`.
unfoldable pub feed : ℕ → ℕ → Option ℕ
feed s c = get_elem? crctab (bit_and (bit_xor (s / 2 ^ 24) c) 0xff) >>= λ entry.
    some (bit_xor (s * 2 ^ 8 % 2 ^ 32) entry)

unfoldable pub update : ℕ → List ℕ → Option ℕ
update s [] = some s
update s (b ∷ buf) = feed s b >>= λ s'. update s' buf

-- The loop of `finalize`, of which `fuel` bounds the rounds.
unfoldable pub feed_size : ℕ → ℕ → ℕ → Option ℕ
feed_size zero s n = if n == 0 then some s else none
feed_size (suc fuel) s n =
    let rest = feed s (bit_and n 0o377) >>= λ s'. feed_size fuel s' (n / 2 ^ 8) in
    if n == 0 then some s else rest

-- A `usize` has 8 bytes.
unfoldable pub finalize : ℕ → ℕ → Option ℕ
finalize crc_in n_in = feed_size 8 crc_in n_in >>= λ s. some (2 ^ 32 - 1 - s)

-- The loop of `cksum_file`.
unfoldable pub sum_reads : ℕ → ℕ → List (List ℕ) → Option (ℕ × ℕ)
sum_reads crc n_bytes [] = some (crc, n_bytes)
sum_reads crc n_bytes (buf ∷ reads) =
    update crc buf >>= λ crc'. sum_reads crc' (n_bytes + length buf) reads

-- The checksum and the size that `cksum_file` prints.
unfoldable pub cksum_file : List (List ℕ) → Option (ℕ × ℕ)
cksum_file reads =
    sum_reads 0 0 reads >>= λ (crc, n_bytes). finalize crc n_bytes >>= λ sum. some (sum, n_bytes)

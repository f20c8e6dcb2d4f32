-- ===== src/Xform/Crc32/Checksum.antt =====
-- The checksum of a file, and the remainder of its bytes and of those of its size.
use posixutils_rs.Prelude.{
  ℕ, zero, suc, ◌+◌, ◌-◌, ◌/◌, ◌%◌, ◌^◌, ◌<◌, ◌≡◌, refl, sym, ap, ◌∙◌, subst, List, [], ◌∷◌, ◌++◌,
  Bool-cases, false, ◌==◌, if◌then◌else◌, Option, some, ◌>>=◌, inl, inr, length, length-append,
  bit_and, All, arith,
}
use mathlib.Core.List.{flatten}
use native.Mathlib.Nat.{pow-suc, div-lt_iff_lt-mul}
use posixutils_rs.Prelude.Bits.{bit_and_low}
use posixutils_rs.Xform.Crc32.{update, feed_size, finalize, sum_reads, cksum_file}
use posixutils_rs.Xform.Crc32.Bitwise.{shift_byte, shift_byte-lt, feed-shift_byte}

abbrev pub shift_bytes : ℕ → List ℕ → ℕ
shift_bytes s [] = s
shift_bytes s (b ∷ buf) = shift_bytes (shift_byte s b) buf

abbrev pub AreBytes : List ℕ → Type 0
AreBytes bytes = All (λ b. b < 256) bytes

-- The bytes of a number, the lowest first, up to the last that is not 0.
abbrev pub octets : ℕ → ℕ → List ℕ
octets zero n = []
octets (suc count) n = let rest = octets count (n / 256) in if n == 0 then [] else n % 256 ∷ rest

shift_bytes-append :
    (s : ℕ) (a b : List ℕ) → shift_bytes s (a ++ b) ≡ shift_bytes (shift_bytes s a) b
shift_bytes-append s [] b = refl
shift_bytes-append s (x ∷ a) b = shift_bytes-append (shift_byte s x) a b

shift_bytes-lt : (s : ℕ) (bytes : List ℕ) → s < 2 ^ 32 → shift_bytes s bytes < 2 ^ 32
shift_bytes-lt s [] h = h
shift_bytes-lt s (b ∷ bytes) h = shift_bytes-lt (shift_byte s b) bytes (shift_byte-lt s b)

-- The table serves for any bytes: `update` does not panic, and leaves the register that the bits leave one by one.
pub update-shift_bytes :
    (s : ℕ) (buf : List ℕ) → s < 2 ^ 32 → AreBytes buf → update s buf ≡ some (shift_bytes s buf)
unfolding update
update-shift_bytes s [] h bs = refl
update-shift_bytes s (b ∷ buf) h (b', bs) =
    ap (λ (o : Option ℕ). o >>= λ s'. update s' buf) (feed-shift_byte s b h b')
    ∙ update-shift_bytes (shift_byte s b) buf (shift_byte-lt s b) bs

size_step :
    (fuel s n : ℕ)
    → (n == 0) ≡ false
    → s < 2 ^ 32
    → feed_size (suc fuel) s n ≡ feed_size fuel (shift_byte s (n % 256)) (n / 256)
unfolding feed_size
size_step fuel s n e h =
    let low : bit_and n 0o377 ≡ n % 256 = bit_and_low 8 n in
    rw e (
      rw low (
        ap (λ (o : Option ℕ). o >>= λ s'. feed_size fuel s' (n / 256))
          (feed-shift_byte s (n % 256) h (omega arith))))

feed_size-octets :
    (fuel s n : ℕ)
    → s < 2 ^ 32
    → n < 256 ^ fuel
    → feed_size fuel s n ≡ some (shift_bytes s (octets fuel n))
unfolding feed_size
feed_size-octets zero s n h l = let e : n ≡ 0 = omega arith in rw e refl
feed_size-octets (suc fuel) s n h l = elim (Bool-cases (n == 0)) [
  | inl e ↦ rw e refl
  | inr e ↦
      let less : n / 256 < 256 ^ fuel =
        (div-lt_iff_lt-mul (omega arith)).1 (subst (λ t. n < t) (pow-suc 256 fuel) l) in
      size_step fuel s n e h
      ∙ feed_size-octets fuel (shift_byte s (n % 256)) (n / 256) (shift_byte-lt s (n % 256)) less
      ∙ rw e refl
]

finalize-octets :
    (s n : ℕ)
    → s < 2 ^ 32
    → n < 2 ^ 64
    → finalize s n ≡ some (2 ^ 32 - 1 - shift_bytes s (octets 8 n))
unfolding finalize
finalize-octets s n h l =
    ap (λ (o : Option ℕ). o >>= λ s'. some (2 ^ 32 - 1 - s'))
      (feed_size-octets 8 s n h (omega arith))

sum_reads-flatten :
    (crc n : ℕ) (reads : List (List ℕ))
    → crc < 2 ^ 32
    → All AreBytes reads
    → sum_reads crc n reads ≡ some (shift_bytes crc (flatten reads), n + length (flatten reads))
unfolding sum_reads flatten
sum_reads-flatten crc n [] h bs = ap (λ k. some (crc, k)) (omega arith)
sum_reads-flatten crc n (buf ∷ reads) h (b, bs) =
    ap (λ (o : Option ℕ). o >>= λ crc'. sum_reads crc' (n + length buf) reads)
      (update-shift_bytes crc buf h b)
    ∙ sum_reads-flatten (shift_bytes crc buf) (n + length buf) reads (shift_bytes-lt crc buf h) bs
    ∙ ap (λ s. some (s, n + length buf + length (flatten reads)))
        (sym (shift_bytes-append crc buf (flatten reads)))
    ∙ ap (λ k. some (shift_bytes crc (buf ++ flatten reads), k))
        (omega (arith, length-append buf (flatten reads)))

-- The checksum of a file does not depend on how it is read: for any division of fewer than 2 ^ 64 bytes into
-- reads, `cksum_file` does not panic, and its sum is the complement of the remainder by the polynomial, one bit
-- at a time, of the bytes of the file and then of its size.
pub cksum_file_lem :
    (reads : List (List ℕ))
    → All AreBytes reads
    → length (flatten reads) < 2 ^ 64
    → let n = length (flatten reads) in
      cksum_file reads ≡ some (2 ^ 32 - 1 - shift_bytes 0 (flatten reads ++ octets 8 n), n)
unfolding cksum_file
cksum_file_lem reads bs h =
    let n = length (flatten reads) in
    let s = shift_bytes 0 (flatten reads) in
    let zero_add : 0 + n ≡ n = omega arith in
    ap (λ (o : Option (ℕ × ℕ)). o >>= λ (crc, k). finalize crc k >>= λ sum. some (sum, k))
      (sum_reads-flatten 0 0 reads (omega arith) bs ∙ ap (λ k. some (s, k)) zero_add)
    ∙ ap (λ (o : Option ℕ). o >>= λ sum. some (sum, n))
        (finalize-octets s n (shift_bytes-lt 0 (flatten reads) (omega arith)) h)
    ∙ ap (λ t. some (2 ^ 32 - 1 - t, n)) (sym (shift_bytes-append 0 (flatten reads) (octets 8 n)))

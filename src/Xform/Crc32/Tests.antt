-- ===== src/Xform/Crc32/Tests.antt =====
-- `cksum` at concrete inputs.
use posixutils_rs.Prelude.{ℕ, ◌-◌, ◌^◌, ◌<◌, ◌≡◌, refl, List, [], ◌∷◌, ◌++◌, some, length, arith}
use mathlib.Core.List.{flatten}
use posixutils_rs.Std.Strings.{codes}
use posixutils_rs.Xform.Crc32.{feed, update, feed_size, finalize, sum_reads, cksum_file}
use posixutils_rs.Xform.Crc32.Checksum.{AreBytes, octets, shift_bytes, cksum_file_lem}

abbrev reads : List (List ℕ)
reads = codes "1234" ∷ codes "56789" ∷ []

cksum_test : cksum_file reads ≡ some (930766865, 9)
unfolding cksum_file sum_reads update feed finalize feed_size
cksum_test = refl

bytes : AreBytes (codes "1234")
bytes = (omega arith, (omega arith, (omega arith, (omega arith, tt))))

more_bytes : AreBytes (codes "56789")
more_bytes = (omega arith, (omega arith, (omega arith, (omega arith, (omega arith, tt)))))

small : length (flatten reads) < 2 ^ 64
unfolding flatten
small = omega arith

cksum_file_lem_example :
    cksum_file reads
    ≡ some (
      2 ^ 32 - 1 - shift_bytes 0 (flatten reads ++ octets 8 (length (flatten reads))),
      length (flatten reads),
    )
cksum_file_lem_example = cksum_file_lem reads (bytes, (more_bytes, tt)) small

-- ===== src/Iconv/Ascii/Tests.antt =====
-- The ASCII converters' theorem at a concrete input.
use posixutils_rs.Prelude.{ℕ, List, [], ◌∷◌}

abbrev bytes : List ℕ
bytes = 0x61 ∷ 0xE9 ∷ 0x62 ∷ []

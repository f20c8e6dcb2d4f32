-- ===== src/Std/Chars.antt =====
-- Characters of Rust's std, as their code points.
use posixutils_rs.Prelude.{ℕ, ◌+◌, [], ◌∷◌, Bool, ◌&&◌, ◌||◌, ltb, leb, ◌==◌, if◌then◌else◌}
use posixutils_rs.Std.Strings.{Str}

-- `char::is_whitespace`: the property White_Space of Unicode.
abbrev pub is_whitespace : ℕ → Bool
is_whitespace c =
    leb 9 c && leb c 13
    || c == 0x20
    || c == 0x85
    || c == 0xa0
    || c == 0x1680
    || leb 0x2000 c && leb c 0x200a
    || c == 0x2028
    || c == 0x2029
    || c == 0x202f
    || c == 0x205f
    || c == 0x3000

-- `len_utf8`
abbrev pub len_utf8 : ℕ → ℕ
len_utf8 c = if ltb c 0x80 then 1 else if ltb c 0x800 then 2 else if ltb c 0x10000 then 3 else 4

-- `len`, which counts bytes.
unfoldable pub len : Str → ℕ
len [] = 0
len (c ∷ s) = len_utf8 c + len s

-- ===== src/Xform/Uudecode/Body.antt =====
-- The lines of a file, encoded and decoded.
use posixutils_rs.Prelude.{
  ℕ, ◌+◌, ◌*◌, ◌/◌, ◌%◌, ◌<◌, ◌≤◌, ◌≡◌, ◌∙◌, refl, ap, List, [], ◌∷◌, ◌++◌, Bool, true, false, ◌==◌,
  if◌then◌else◌, Option, some, arith, All, All-append, length, take, lt→leb,
}
use posixutils_rs.Std.Strings.{Str, str_eq}
use posixutils_rs.Std.Chunks.{chunks, chunks-cons, IsChunk}
use posixutils_rs.Xform.Base64.{IsByte}
use posixutils_rs.Xform.Uuencode.{
  byte_at, length_byte, encode_chunk, encode_chunks, encode_historical_line,
}
use posixutils_rs.Xform.Uudecode.{
  reduce, decode_chunks, decode_historical_line, spaced, historical_bytes,
}
use posixutils_rs.Xform.Uudecode.Octets.{
  IsPrintable, spaced-chunk, decode_chunk-characters, chunk-IsPrintable, characters,
}

-- The bytes up to a whole number of chunks.
padded : List ℕ → List ℕ
padded [] = []
padded (a ∷ []) = a ∷ 0 ∷ 0 ∷ []
padded (a ∷ b ∷ []) = a ∷ b ∷ 0 ∷ []
padded (a ∷ b ∷ c ∷ xs) = a ∷ b ∷ c ∷ padded xs

padded-take : (xs : List ℕ) → take (length xs) (padded xs) ≡ xs
unfolding padded
padded-take [] = refl
padded-take (a ∷ []) = refl
padded-take (a ∷ b ∷ []) = refl
padded-take (a ∷ b ∷ c ∷ xs) = ap (λ (t : List ℕ). a ∷ b ∷ c ∷ t) (padded-take xs)

chunks-nil : (n : ℕ) → chunks {A = ℕ} n [] ≡ []
unfolding chunks
chunks-nil n = refl

spaced-append : (s t : Str) → spaced (s ++ t) ≡ spaced s ++ spaced t
unfolding spaced
spaced-append [] t = refl
spaced-append (c ∷ s) t = ap (λ (r : Str). (if c == 96 then 32 else c) ∷ r) (spaced-append s t)

abbrev decoded : Bool → Str → Option (List ℕ)
decoded checked text = decode_chunks checked (chunks 4 (spaced text))

decoded-chunk :
    (checked : Bool) (a b c : ℕ) (s : List ℕ) (text : Str) (out : List ℕ)
    → a < 256
    → b < 256
    → c < 256
    → byte_at s 0 ≡ a
    → byte_at s 1 ≡ b
    → byte_at s 2 ≡ c
    → decoded checked text ≡ some out
    → decoded checked (encode_chunk s ++ text) ≡ some (a ∷ b ∷ c ∷ out)
unfolding decode_chunks
decoded-chunk checked a b c s text out ha hb hc e0 e1 e2 h =
    let parts : spaced (encode_chunk s ++ text) ≡ characters a b c ++ spaced text =
      spaced-append (encode_chunk s) text
      ∙ ap (λ (t : Str). t ++ spaced text) (spaced-chunk a b c ha hb hc s e0 e1 e2) in
    rw
      (
        parts,
        chunks-cons 3 (0x20 + a / 4) (
            (0x20 + (a % 4 * 16 + b / 16))
            ∷ (0x20 + (b % 16 * 4 + c / 64))
            ∷ (0x20 + c % 64)
            ∷ spaced text),
        decode_chunk-characters a b c ha hb hc checked,
        h,
      )
      refl

decoded-nil : (checked : Bool) → decoded checked [] ≡ some []
unfolding decode_chunks chunks spaced
decoded-nil checked = refl

-- A whole line of bytes, up to the padding of its last chunk.
decoded-encoded :
    (checked : Bool) (xs : List ℕ)
    → All IsByte xs
    → decoded checked (encode_chunks (chunks 3 xs)) ≡ some (padded xs)
unfolding encode_chunks padded decode_chunks
decoded-encoded checked [] h = rw (chunks-nil 3) (decoded-nil checked)
decoded-encoded checked (a ∷ []) h =
    rw (chunks-cons 2 a [], chunks-nil 3)
      (decoded-chunk checked a 0 0 (a ∷ []) [] [] h.0 (omega arith) (omega arith) refl refl refl
        (decoded-nil checked))
decoded-encoded checked (a ∷ b ∷ []) h =
    rw (chunks-cons 2 a (b ∷ []), chunks-nil 3)
      (decoded-chunk checked a b 0 (a ∷ b ∷ []) [] [] h.0 h.1.0 (omega arith) refl refl refl
        (decoded-nil checked))
decoded-encoded checked (a ∷ b ∷ c ∷ xs) h = rw (chunks-cons 2 a (b ∷ c ∷ xs)) (
    decoded-chunk checked a b c (a ∷ b ∷ c ∷ []) (encode_chunks (chunks 3 xs)) (padded xs) h.0 h.1.0
      h.1.1.0 refl refl refl (decoded-encoded checked xs h.1.1.1))

encode_chunks-IsPrintable :
    (xs : List ℕ) → All IsByte xs → All IsPrintable (encode_chunks (chunks 3 xs))
unfolding encode_chunks
encode_chunks-IsPrintable [] h = rw (chunks-nil 3) tt
encode_chunks-IsPrintable (a ∷ []) h =
    rw (chunks-cons 2 a [], chunks-nil 3)
      (All-append IsPrintable (encode_chunk (a ∷ [])) []
        (chunk-IsPrintable a 0 0 h.0 (omega arith) (omega arith) (a ∷ []) refl refl refl) tt)
encode_chunks-IsPrintable (a ∷ b ∷ []) h =
    rw (chunks-cons 2 a (b ∷ []), chunks-nil 3)
      (All-append IsPrintable (encode_chunk (a ∷ b ∷ [])) []
        (chunk-IsPrintable a b 0 h.0 h.1.0 (omega arith) (a ∷ b ∷ []) refl refl refl) tt)
encode_chunks-IsPrintable (a ∷ b ∷ c ∷ xs) h = rw (chunks-cons 2 a (b ∷ c ∷ xs)) (
    All-append IsPrintable (encode_chunk (a ∷ b ∷ c ∷ [])) _
      (chunk-IsPrintable a b c h.0 h.1.0 h.1.1.0 (a ∷ b ∷ c ∷ []) refl refl refl)
      (encode_chunks-IsPrintable xs h.1.1.1))

-- The text of an encoded line, without its newline.
abbrev pub line_text : List ℕ → Str
line_text line = length_byte line ∷ encode_chunks (chunks 3 line)

-- A line of a file: not empty, and of 45 bytes at most.
abbrev pub IsLine : List ℕ → Type 0
IsLine = IsChunk IsByte 45

spaced-line_text :
    (line : List ℕ)
    → IsLine line
    → spaced (line_text line) ≡ (length line + 32) ∷ spaced (encode_chunks (chunks 3 line))
unfolding spaced
spaced-line_text line (more, less, bytes) =
    let first : (if length_byte line == 96 then 32 else length_byte line) ≡ length line + 32 =
      ground arith in
    ap (λ (c : ℕ). c ∷ spaced (encode_chunks (chunks 3 line))) first

pub line_text-IsPrintable : (line : List ℕ) → IsLine line → All IsPrintable (line_text line)
line_text-IsPrintable line (more, less, bytes) =
    ((omega arith, omega arith), encode_chunks-IsPrintable line bytes)

reduce_length : (checked : Bool) (n : ℕ) → n < 64 → reduce checked (n + 32) ≡ some n
reduce_length true n h = ground arith
reduce_length false n h = ground arith

pub historical_bytes-line_text :
    (checked : Bool) (line : List ℕ)
    → IsLine line
    → historical_bytes checked (spaced (line_text line)) ≡ some line
unfolding historical_bytes decode_historical_line
historical_bytes-line_text checked line (more, less, bytes) =
    rw (spaced-line_text line (more, less, bytes)) (
      rw
        (
          lt→leb 0x80 (length line + 32) (omega arith),
          reduce_length checked (length line) (omega arith),
          decoded-encoded checked line bytes,
          padded-take line,
        )
        refl)

pub line_text-ne-blank :
    (line : List ℕ) → IsLine line → str_eq (spaced (line_text line)) (32 ∷ []) ≡ false
unfolding str_eq
line_text-ne-blank line (more, less, bytes) =
    rw (spaced-line_text line (more, less, bytes)) (ground arith)

chars_of : List ℕ → ℕ
chars_of xs = length (encode_chunks (chunks 3 xs))

-- Four characters for three bytes.
chars_of-le : (xs : List ℕ) → chars_of xs * 3 ≤ length xs * 4 + 8
unfolding chars_of encode_chunks encode_chunk
chars_of-le [] = rw (chunks-nil 3) (omega arith)
chars_of-le (a ∷ []) = rw (chunks-cons 2 a [], chunks-nil 3) (omega arith)
chars_of-le (a ∷ b ∷ []) = rw (chunks-cons 2 a (b ∷ []), chunks-nil 3) (omega arith)
chars_of-le (a ∷ b ∷ c ∷ xs) = rw (chunks-cons 2 a (b ∷ c ∷ xs)) (omega (arith, chars_of-le xs))

-- For every line of 1 to 45 bytes, `encode_historical_line` writes at most 63 characters from `!` to the
-- backquote, and a newline.
pub historical_line_bounds :
    (line : List ℕ)
    → IsLine line
    → (text : Str) × (encode_historical_line line ≡ text ++ 10 ∷ [])
      × All IsPrintable text
      × (length text ≤ 63)
unfolding encode_historical_line chars_of
historical_line_bounds line h =
    (line_text line, refl, line_text-IsPrintable line h, omega (arith, chars_of-le line))

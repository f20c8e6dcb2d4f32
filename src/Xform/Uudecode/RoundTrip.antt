-- ===== src/Xform/Uudecode/RoundTrip.antt =====
-- `uudecode` behind `uuencode`.
use mathlib.Core.List.{flatten}
use posixutils_rs.Prelude.{
  ℕ, ◌+◌, ◌*◌, ◌/◌, ◌%◌, ◌^◌, ◌<◌, ◌≤◌, ◌≡◌, ◌≢◌, ◌∙◌, refl, ap, subst, List, [], ◌∷◌, ◌++◌,
  append_assoc, Bool, Option, some, arith, map, All, All-append,
}
use posixutils_rs.Prelude.Bits.{bit_and_low, bit_or_field}
use posixutils_rs.Std.Strings.{
  Str, codes, str_eq, str_eq_iff, Free, lines, lines-cons, split-Free, split-Free_end, without_cr,
}
use posixutils_rs.Std.Chunks.{chunks, flatten-chunks, chunks-IsChunk}
use posixutils_rs.Std.Numerals.{from_str_radix_8, octal_number, octal_digits}
use posixutils_rs.Xform.Base64.{Base64, IsByte}
use posixutils_rs.Xform.Uuencode.{
  EncodingType, historical, base64, get_header, get_permission_values, encode_historical_line,
  encode_base64_line, encode_line, encode_lines, trailer, path_of, encode_file,
}
use posixutils_rs.Xform.Uudecode.{
  DecodingType, dec_type_of, parse_header, ok, spaced, check_end, historical_body, or_invalid,
  base64_body, body, out_path_of, decode_lines, decode_file, new_mode,
}
use posixutils_rs.Xform.Uudecode.Octets.{IsPrintable}
use posixutils_rs.Xform.Uudecode.Body.{
  IsLine, line_text, line_text-IsPrintable, historical_bytes-line_text, line_text-ne-blank,
}

All-map {ℓ κ μ} :
    {A : Type ℓ} (P : A → Type κ) (Q : A → Type μ)
    → ((a : A) → P a → Q a)
    → (xs : List A) → All P xs
    → All Q xs
All-map P Q f [] h = tt
All-map P Q f (x ∷ xs) h = (f x h.0, All-map P Q f xs h.1)

module _ (crate : Base64) where
  -- The text of a line, without its newline.
  abbrev text_of : EncodingType → List ℕ → Str
  text_of historical line = line_text line
  text_of base64 line = crate.encode line

  encode_line-text_of :
      (enc : EncodingType) (line : List ℕ)
      → encode_line crate enc line ≡ text_of enc line ++ 10 ∷ []
  unfolding encode_line encode_historical_line encode_base64_line
  encode_line-text_of historical line = refl
  encode_line-text_of base64 line = refl

  text_of-Free :
      (enc : EncodingType) (line : List ℕ) (c : ℕ)
      → IsLine line
      → c < 33
      → Free c (text_of enc line)
  text_of-Free historical line c h lt =
      All-map IsPrintable (λ x. x ≢ c) (λ x p e. omega arith) (line_text line)
        (line_text-IsPrintable line h)
  text_of-Free base64 line c h lt =
      All-map (λ x. b'+' ≤ x) (λ x. x ≢ c) (λ x p e. omega arith) (crate.encode line)
        (crate.encode_alphabet line)

  lines-encode_lines :
      (enc : EncodingType) (ls : List (List ℕ)) (rest : Str)
      → All IsLine ls
      → lines (encode_lines crate enc ls ++ rest) ≡ map (text_of enc) ls ++ lines rest
  unfolding encode_lines
  lines-encode_lines enc [] rest h = refl
  lines-encode_lines enc (l ∷ ls) rest h =
      let regrouped : encode_line crate enc l ++ encode_lines crate enc ls ++ rest
          ≡ text_of enc l ++ 10 ∷ (encode_lines crate enc ls ++ rest) =
        rw (encode_line-text_of enc l) (simp append_assoc) in
      rw
        (
          regrouped,
          lines-cons (text_of enc l) (encode_lines crate enc ls ++ rest)
              (text_of-Free enc l 10 h.0 (omega arith)) (text_of-Free enc l 13 h.0 (omega arith)),
          lines-encode_lines enc ls rest h.1,
        )
        refl

  -- The lines behind the header, and what they hold.
  abbrev trailer_lines : EncodingType → List Str
  trailer_lines historical = codes "`" ∷ codes "end" ∷ []
  trailer_lines base64 = codes "====" ∷ []

  lines-trailer : (enc : EncodingType) → lines (trailer enc ++ 10 ∷ []) ≡ trailer_lines enc
  unfolding lines trailer without_cr
  lines-trailer historical = refl
  lines-trailer base64 = refl

  historical_body-lines :
      (checked : Bool) (ls : List (List ℕ))
      → All IsLine ls
      → historical_body checked (map line_text ls ++ trailer_lines historical) ≡ ok (flatten ls)
  unfolding historical_body flatten
  historical_body-lines checked [] h = unfold check_end str_eq spaced in refl
  historical_body-lines checked (l ∷ ls) h = ground (
    arith,
    line_text-ne-blank l h.0,
    historical_bytes-line_text checked l h.0,
    historical_body-lines checked ls h.1,
  )

  encode-ne-newline : (l : List ℕ) → crate.encode l ≢ codes "====\n"
  encode-ne-newline l e =
      let low : All (λ c. b'+' ≤ c) (codes "====\n") =
        subst (λ (s : Str). All (λ c. b'+' ≤ c) s) e (crate.encode_alphabet l) in
      omega arith

  base64_body-lines :
      (ls : List (List ℕ))
      → All IsLine ls
      → base64_body crate (map crate.encode ls ++ trailer_lines base64) ≡ ok (flatten ls)
  unfolding base64_body flatten or_invalid
  base64_body-lines [] h = unfold str_eq in refl
  base64_body-lines (l ∷ ls) h = ground (
    arith,
    str_eq_iff (crate.encode l) (codes "===="),
    str_eq_iff (crate.encode l) (codes "====\n"),
    crate.encode-ne-padding l,
    encode-ne-newline l,
    crate.decode-encode l h.0.2,
    base64_body-lines ls h.1,
  )

  header_text : EncodingType → ℕ → Str → Str
  header_text enc mode path = get_header enc ++ (32 ∷ (get_permission_values mode ++ (32 ∷ path)))

  abbrev type_of : EncodingType → DecodingType
  type_of historical = DecodingType.historical
  type_of base64 = DecodingType.base64

  digits-mode : (mode : ℕ) → from_str_radix_8 (get_permission_values mode) ≡ some (mode % 512)
  unfolding from_str_radix_8 octal_number octal_digits get_permission_values
  digits-mode mode =
      rw (bit_and_low 3 mode, bit_and_low 3 (mode / 8), bit_and_low 3 (mode / 64)) (ground arith)

  get_header-Free : (enc : EncodingType) (c : ℕ) → c < 33 → Free c (get_header enc)
  unfolding get_header
  get_header-Free historical c h = omega arith
  get_header-Free base64 c h = omega arith

  digits-Free : (mode c : ℕ) → c < 33 → Free c (get_permission_values mode)
  unfolding get_permission_values
  digits-Free mode c h = omega arith

  dec_type_of-get_header : (enc : EncodingType) → dec_type_of (get_header enc) ≡ some (type_of enc)
  unfolding dec_type_of get_header str_eq
  dec_type_of-get_header historical = refl
  dec_type_of-get_header base64 = refl

  parse_header-header_text :
      (enc : EncodingType) (mode : ℕ) (path : Str)
      → Free 32 path
      → parse_header (header_text enc mode path)
        ≡ some (record { dec_type = type_of enc; lower_perm_bits = mode % 512; out = path })
  unfolding parse_header header_text
  parse_header-header_text enc mode path h =
      rw
        (
          split-Free 32 (get_header enc) (get_permission_values mode ++ (32 ∷ path))
              (get_header-Free enc 32 (omega arith)),
          split-Free 32 (get_permission_values mode) path (digits-Free mode 32 (omega arith)),
          split-Free_end 32 path h,
          digits-mode mode,
          dec_type_of-get_header enc,
        )
        refl

  header_text-Free :
      (enc : EncodingType) (mode : ℕ) (path : Str) (c : ℕ)
      → c < 32
      → Free c path
      → Free c (header_text enc mode path)
  unfolding header_text
  header_text-Free enc mode path c lt h =
      All-append (λ x. x ≢ c) (get_header enc) _ (get_header-Free enc c (omega arith))
        (
          omega arith,
          All-append (λ x. x ≢ c) (get_permission_values mode) _ (digits-Free mode c (omega arith))
              (omega arith, h),
        )

  encode_file-header_text :
      (enc : EncodingType) (mode : ℕ) (decode_path : Option Str) (buf : List ℕ)
      → encode_file crate enc mode decode_path buf
        ≡ header_text enc mode (path_of decode_path)
          ++ 10 ∷ (encode_lines crate enc (chunks 45 buf) ++ (trailer enc ++ 10 ∷ []))
  unfolding encode_file header_text
  encode_file-header_text enc mode decode_path buf = simp append_assoc

  body-lines :
      (enc : EncodingType) (checked : Bool) (ls : List (List ℕ))
      → All IsLine ls
      → body crate checked (type_of enc) (map (text_of enc) ls ++ trailer_lines enc)
        ≡ ok (flatten ls)
  unfolding body
  body-lines historical checked ls h = historical_body-lines checked ls h
  body-lines base64 checked ls h = base64_body-lines ls h

  abbrev IsPath : Str → Type 0
  IsPath path = Free 32 path × Free 10 path × Free 13 path

  -- For every file of bytes, both encodings, and a decode path without a space or the end of a line,
  -- `uudecode` of what `uuencode` writes gives the bytes again, the path, if no other is asked for, and the
  -- nine permission bits of the mode, whether or not the arithmetic on bytes is checked for overflow.
  pub decode_file-encode_file :
      (checked : Bool) (enc : EncodingType) (mode : ℕ) (decode_path outfile : Option Str)
      (buf : List ℕ)
      → All IsByte buf
      → IsPath (path_of decode_path)
      → decode_file crate checked outfile (encode_file crate enc mode decode_path buf)
        ≡ ok (record {
          out_path = out_path_of outfile (path_of decode_path);
          lower_perm_bits = mode % 512;
          bytes = buf;
        })
  unfolding decode_file decode_lines
  decode_file-encode_file checked enc mode decode_path outfile buf bytes (space, newline, cr) =
      let path = path_of decode_path in
      let ls = chunks 45 buf in
      let good = chunks-IsChunk IsByte 44 buf bytes in
      let read : lines (encode_file crate enc mode decode_path buf)
          ≡ header_text enc mode path ∷ (map (text_of enc) ls ++ trailer_lines enc) =
        ap (λ (t : Str). lines t) (encode_file-header_text enc mode decode_path buf)
        ∙ lines-cons (header_text enc mode path) _
            (header_text-Free enc mode path 10 (omega arith) newline)
            (header_text-Free enc mode path 13 (omega arith) cr)
        ∙ ap (λ (r : List Str). header_text enc mode path ∷ r)
            (lines-encode_lines enc ls (trailer enc ++ 10 ∷ []) good
              ∙ ap (λ (r : List Str). map (text_of enc) ls ++ r) (lines-trailer enc)) in
      rw
        (
          read,
          parse_header-header_text enc mode path space,
          body-lines enc checked ls good,
          flatten-chunks 44 buf,
        )
        refl

-- For every mode of the file that `uudecode` creates, the permissions it gets from the decoded bits are those
-- of the file that was encoded, and the type bits stay.
pub new_mode_lem : (m mode : ℕ) → new_mode m (mode % 512) ≡ m / 512 * 512 + mode % 512
unfolding new_mode
new_mode_lem m mode = bit_or_field 9 (m / 2 ^ 9) (mode % 512) (omega arith)

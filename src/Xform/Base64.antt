-- ===== src/Xform/Base64.antt =====
-- The `base64` crate, which uuencode.rs and uudecode.rs call: its functions are parameters, and what it
-- documents of them are laws.
use posixutils_rs.Prelude.{
  ℕ, ◌+◌, ◌-◌, ◌*◌, ◌/◌, ◌%◌, ◌<◌, ◌≤◌, ◌≡◌, ◌≢◌, refl, List, [], ◌∷◌, Option, some, none, All,
  arith, ◌>>=◌,
}
use posixutils_rs.Std.Strings.{Str}

abbrev pub IsByte : ℕ → Type 0
IsByte b = b < 256

pub record Base64 : Type 0 where
  pub encode : List ℕ → Str
  pub decode : Str → Option (List ℕ)
  pub decode-encode : (bytes : List ℕ) → All IsByte bytes → decode (encode bytes) ≡ some bytes
  -- Letters, digits, `+`, `/` and `=`: nothing below `+`.
  pub encode_alphabet : (bytes : List ℕ) → All (λ c. b'+' ≤ c) (encode bytes)
  -- There are two signs of padding at most.
  pub encode-ne-padding : (bytes : List ℕ) → encode bytes ≢ b'=' ∷ b'=' ∷ b'=' ∷ b'=' ∷ []

-- Two letters for each byte, which have the same laws.
abbrev pub pairs : List ℕ → Str
pairs [] = []
pairs (b ∷ bs) = (b'A' + b / 16) ∷ (b'A' + b % 16) ∷ pairs bs

abbrev pub unpaired : Str → Option (List ℕ)
unpaired [] = some []
unpaired (c ∷ []) = none
unpaired (c ∷ d ∷ s) = do bs ← unpaired s; some (((c - b'A') * 16 + (d - b'A')) ∷ bs)

pub unpaired-pairs : (bytes : List ℕ) → All IsByte bytes → unpaired (pairs bytes) ≡ some bytes
unpaired-pairs [] h = refl
unpaired-pairs (b ∷ bs) h = rw (unpaired-pairs bs h.1) (ground arith)

pub pairs_alphabet : (bytes : List ℕ) → All (λ c. b'+' ≤ c) (pairs bytes)
pairs_alphabet [] = tt
pairs_alphabet (b ∷ bs) = (omega arith, (omega arith, pairs_alphabet bs))

pub pairs-ne-padding : (bytes : List ℕ) → pairs bytes ≢ b'=' ∷ b'=' ∷ b'=' ∷ b'=' ∷ []
pairs-ne-padding [] = λ e. cc
pairs-ne-padding (b ∷ bs) = λ e. ground arith

abbrev pub letter_pairs : Base64
letter_pairs = record {
  encode = pairs;
  decode = unpaired;
  decode-encode = unpaired-pairs;
  encode_alphabet = pairs_alphabet;
  encode-ne-padding = pairs-ne-padding;
}

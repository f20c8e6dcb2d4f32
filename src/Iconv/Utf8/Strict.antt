-- ===== src/Iconv/Utf8/Strict.antt =====
-- The texts that `to_ucs4` accepts without `-c`.
use posixutils_rs.Prelude.{
  ℕ, zero, suc, ◌+◌, ◌*◌, ◌%◌, ◌≤◌, ◌<◌, ◌≡◌, ◌∙◌, refl, sym, List, [], ◌∷◌, ◌++◌, Bool, true,
  false, arith, length, ap, append_assoc, All,
}
use posixutils_rs.Iconv.Stream.{
  Step, emit, stop, exit, panic, Outcome, finished, follow, run, Keeps,
}
use posixutils_rs.Iconv.Words.{IsScalar, IsByte, contains}
use posixutils_rs.Iconv.Utf8.{Message, refuse, two, three, four, to_ucs4, from_ucs4}
use posixutils_rs.Iconv.Utf8.Numbers.{
  not_continuation_lem, code_point_2_lem, code_point_3_lem, code_point_4_lem,
}
use posixutils_rs.Iconv.Utf8.Encoding.{encoding, encodings, from_ucs4-encodings_utf8}
use posixutils_rs.Iconv.Utf8.Decoding.{round-Keeps, to_ucs4-IsScalar_utf8}
use posixutils_rs.Iconv.Utf8.Plain.{plain_round, to_ucs4_plain_utf8}

-- A well-formed sequence is the encoding of the value that its bits spell.
one_byte : (b : ℕ) → b < 128 → encoding b ≡ b ∷ []
unfolding encoding
one_byte b h = ground arith

abbrev Trail : ℕ → Type 0
Trail b = (128 ≤ b) × (b < 192)

encoding_2 :
    (b0 b1 : ℕ)
    → 0xC0 ≤ b0
    → b0 ≤ 0xDF
    → Trail b1
    → 0x80 ≤ b0 % 32 * 64 + b1 % 64
    → encoding (b0 % 32 * 64 + b1 % 64) ≡ b0 ∷ b1 ∷ []
unfolding encoding
encoding_2 b0 b1 lo hi t min = ground arith

encoding_3 :
    (b0 b1 b2 : ℕ)
    → 0xE0 ≤ b0
    → b0 ≤ 0xEF
    → Trail b1
    → Trail b2
    → 0x800 ≤ b0 % 16 * 4096 + b1 % 64 * 64 + b2 % 64
    → encoding (b0 % 16 * 4096 + b1 % 64 * 64 + b2 % 64) ≡ b0 ∷ b1 ∷ b2 ∷ []
unfolding encoding
encoding_3 b0 b1 b2 lo hi t1 t2 min = ground arith

encoding_4 :
    (b0 b1 b2 b3 : ℕ)
    → 0xF0 ≤ b0
    → b0 ≤ 0xF4
    → Trail b1
    → Trail b2
    → Trail b3
    → 0x10000 ≤ b0 % 8 * 262144 + b1 % 64 * 4096 + b2 % 64 * 64 + b3 % 64
    → encoding (b0 % 8 * 262144 + b1 % 64 * 4096 + b2 % 64 * 64 + b3 % 64) ≡ b0 ∷ b1 ∷ b2 ∷ b3 ∷ []
unfolding encoding
encoding_4 b0 b1 b2 b3 lo hi t1 t2 t3 min = ground arith

module _ (quiet : Bool) where
  -- What a strict round takes off the input is the encoding of what it emits.
  abbrev Reads : List ℕ → Step Message (List ℕ) → Type 0
  Reads bytes (emit xs es rest) = (encodings xs ++ rest ≡ bytes)
  Reads bytes (stop es) = (bytes ≡ [])
  Reads bytes _ = Unit

  two-Reads :
      (b0 : ℕ) (bs : List ℕ)
      → contains 0xC0 0xDF b0 ≡ true
      → All IsByte bs
      → Reads (b0 ∷ bs) (two false quiet (λ t. t) (b0 ∷ bs))
  unfolding two refuse encodings
  two-Reads b0 [] h a = tt
  two-Reads b0 (b1 ∷ bs) h a =
      ground (arith, not_continuation_lem b1, code_point_2_lem b0 b1, encoding_2 b0 b1)

  three-Reads :
      (b0 : ℕ) (bs : List ℕ)
      → contains 0xE0 0xEF b0 ≡ true
      → All IsByte bs
      → Reads (b0 ∷ bs) (three false quiet (λ t. t) (b0 ∷ bs))
  unfolding three refuse encodings
  three-Reads b0 [] h a = tt
  three-Reads b0 (b1 ∷ []) h a = tt
  three-Reads b0 (b1 ∷ b2 ∷ bs) h a = ground (
    arith,
    not_continuation_lem b1,
    not_continuation_lem b2,
    code_point_3_lem b0 b1 b2,
    encoding_3 b0 b1 b2,
  )

  four-Reads :
      (b0 : ℕ) (bs : List ℕ)
      → contains 0xF0 0xF4 b0 ≡ true
      → All IsByte bs
      → Reads (b0 ∷ bs) (four false quiet (λ t. t) (b0 ∷ bs))
  unfolding four refuse encodings
  four-Reads b0 [] h a = tt
  four-Reads b0 (b1 ∷ []) h a = tt
  four-Reads b0 (b1 ∷ b2 ∷ []) h a = tt
  four-Reads b0 (b1 ∷ b2 ∷ b3 ∷ bs) h a = ground (
    arith,
    not_continuation_lem b1,
    not_continuation_lem b2,
    not_continuation_lem b3,
    code_point_4_lem b0 b1 b2 b3,
    encoding_4 b0 b1 b2 b3,
  )

  round-Reads : (bytes : List ℕ) → All IsByte bytes → Reads bytes (plain_round false quiet bytes)
  unfolding plain_round refuse encodings
  round-Reads [] h = refl
  round-Reads (b ∷ bs) (hb, hbs) =
      ground (arith, one_byte b, two-Reads b bs, three-Reads b bs, four-Reads b bs)

encodings-append : (xs ys : List ℕ) → encodings (xs ++ ys) ≡ encodings xs ++ encodings ys
unfolding encodings
encodings-append [] ys = refl
encodings-append (x ∷ xs) ys =
    rw (encodings-append xs ys) (sym (append_assoc (encoding x) (encodings xs) (encodings ys)))

module _ (quiet : Bool) where
  follow-Reads :
      (bytes : List ℕ) (r : Step Message (List ℕ)) (k : List ℕ → Outcome Message)
      → Reads quiet bytes r
      → Keeps (All IsByte) IsScalar r
      → ((rest : List ℕ)
          → All IsByte rest
          → (k rest).status ≡ finished
          → encodings (k rest).items ≡ rest)
      → (follow r k).status ≡ finished
      → encodings (follow r k).items ≡ bytes
  follow-Reads bytes (emit xs es rest) k e a ih f =
      encodings-append xs (k rest).items
      ∙ ap (λ (t : List ℕ). encodings xs ++ t) (ih rest a.1 f)
      ∙ e
  follow-Reads bytes (stop es) k e a ih f = unfold encodings in sym e
  follow-Reads bytes (exit es) k e a ih f = cc
  follow-Reads bytes panic k e a ih f = cc

  run_reads :
      (fuel : ℕ) (bytes : List ℕ)
      → All IsByte bytes
      → (run fuel (plain_round false quiet) bytes).status ≡ finished
      → encodings (run fuel (plain_round false quiet) bytes).items ≡ bytes
  unfolding run
  run_reads zero bytes a f = cc
  run_reads (suc fuel) bytes a f =
      follow-Reads bytes (plain_round false quiet bytes) _ (round-Reads quiet bytes a)
        (round-Keeps false quiet bytes a) (λ rest b g. run_reads fuel rest b g) f

  -- If the strict decoder reads bytes to their end, they are the encodings of its items.
  pub encodings-to_ucs4 :
      (input : List ℕ)
      → All IsByte input
      → (to_ucs4 false quiet input).status ≡ finished
      → encodings (to_ucs4 false quiet input).items ≡ input
  encodings-to_ucs4 input a f = rw (to_ucs4_plain_utf8 false quiet input) (
      run_reads (suc (length input)) input a
        (ap (λ (o : Outcome Message). o.status) (sym (to_ucs4_plain_utf8 false quiet input)) ∙ f))

-- For every list of bytes that `to_ucs4` without `-c` reads to its end, `from_ucs4` makes the same
-- bytes of what was read, with no message and no exit.
pub from_ucs4-to_ucs4_utf8 :
    (quiet omit' quiet' : Bool) (input : List ℕ)
    → All IsByte input
    → (to_ucs4 false quiet input).status ≡ finished
    → from_ucs4 omit' quiet' (to_ucs4 false quiet input).items
      ≡ record { items = input; errors = []; status = finished }
from_ucs4-to_ucs4_utf8 quiet omit' quiet' input a f =
    from_ucs4-encodings_utf8 omit' quiet' (to_ucs4 false quiet input).items
      (to_ucs4-IsScalar_utf8 false quiet input a)
    ∙ ap (λ (t : List ℕ). record { items = t; errors = []; status = finished })
        (encodings-to_ucs4 quiet input a f)

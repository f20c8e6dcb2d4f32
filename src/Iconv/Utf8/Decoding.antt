-- ===== src/Iconv/Utf8/Decoding.antt =====
-- What `to_ucs4` does with any bytes.
use posixutils_rs.Prelude.{ℕ, suc, ◌≡◌, ◌≢◌, refl, List, [], ◌∷◌, Bool, true, arith, length, All}
use posixutils_rs.Iconv.Stream.{
  Status, finished, exited, panicked, stuck, run_total, run-All, run-IsOrderly, Shrinks, Keeps,
  KeepsRunning, IsOrderly,
}
use posixutils_rs.Iconv.Words.{IsScalar, IsByte}
use posixutils_rs.Iconv.Utf8.{refuse, two, three, four, to_ucs4}
use posixutils_rs.Iconv.Utf8.Numbers.{code_point_2_lem, code_point_3_lem, code_point_4_lem}
use posixutils_rs.Iconv.Utf8.Plain.{plain_round, to_ucs4_plain_utf8}

module _ (omit quiet : Bool) where
  two-Shrinks :
      (b0 : ℕ) (bs : List ℕ) → Shrinks length (b0 ∷ bs) (two omit quiet (λ t. t) (b0 ∷ bs))
  unfolding two refuse
  two-Shrinks b0 [] = ground arith
  two-Shrinks b0 (b1 ∷ bs) = ground arith

  three-Shrinks :
      (b0 : ℕ) (bs : List ℕ) → Shrinks length (b0 ∷ bs) (three omit quiet (λ t. t) (b0 ∷ bs))
  unfolding three refuse
  three-Shrinks b0 [] = ground arith
  three-Shrinks b0 (b1 ∷ []) = ground arith
  three-Shrinks b0 (b1 ∷ b2 ∷ bs) = ground arith

  four-Shrinks :
      (b0 : ℕ) (bs : List ℕ) → Shrinks length (b0 ∷ bs) (four omit quiet (λ t. t) (b0 ∷ bs))
  unfolding four refuse
  four-Shrinks b0 [] = ground arith
  four-Shrinks b0 (b1 ∷ []) = ground arith
  four-Shrinks b0 (b1 ∷ b2 ∷ []) = ground arith
  four-Shrinks b0 (b1 ∷ b2 ∷ b3 ∷ bs) = ground arith

  round-Shrinks : (bytes : List ℕ) → Shrinks length bytes (plain_round omit quiet bytes)
  unfolding plain_round refuse
  round-Shrinks [] = tt
  round-Shrinks (b ∷ bs) = ground (arith, two-Shrinks b bs, three-Shrinks b bs, four-Shrinks b bs)

  -- For every input and both flags, `to_ucs4` ends: the rounds that its loop is given are enough.
  pub to_ucs4-ne-stuck_utf8 : (input : List ℕ) → (to_ucs4 omit quiet input).status ≢ stuck
  to_ucs4-ne-stuck_utf8 input = rw (to_ucs4_plain_utf8 omit quiet input) (
      run_total length (plain_round omit quiet) round-Shrinks (suc (length input)) input
        (omega arith))

module _ (quiet : Bool) where
  abbrev Any : List ℕ → Type 0
  Any bytes = Unit

  round_runs : (bytes : List ℕ) → KeepsRunning Any (plain_round true quiet bytes)
  unfolding plain_round two three four refuse
  round_runs [] = tt
  round_runs (b0 ∷ []) = ground arith
  round_runs (b0 ∷ b1 ∷ []) = ground arith
  round_runs (b0 ∷ b1 ∷ b2 ∷ []) = ground arith
  round_runs (b0 ∷ b1 ∷ b2 ∷ b3 ∷ bs) = ground arith

  to_ucs4_omit-IsOrderly : (input : List ℕ) → IsOrderly (to_ucs4 true quiet input).status
  to_ucs4_omit-IsOrderly input = rw (to_ucs4_plain_utf8 true quiet input) (
      run-IsOrderly Any (plain_round true quiet) (λ s _. round_runs s) (suc (length input)) input
        tt)

  orderly_end : (st : Status) → IsOrderly st → st ≢ stuck → st ≡ finished
  orderly_end finished o n = refl
  orderly_end exited o n = absurd o
  orderly_end panicked o n = absurd o
  orderly_end stuck o n = absurd (n refl)

  -- With `-c`, `to_ucs4` reads every input to its end: nothing ends the process.
  pub to_ucs4_omit_utf8 : (input : List ℕ) → (to_ucs4 true quiet input).status ≡ finished
  to_ucs4_omit_utf8 input =
      orderly_end (to_ucs4 true quiet input).status (to_ucs4_omit-IsOrderly input)
        (to_ucs4-ne-stuck_utf8 true quiet input)

module _ (omit quiet : Bool) where
  pub round-Keeps :
      (bytes : List ℕ)
      → All IsByte bytes
      → Keeps (All IsByte) IsScalar (plain_round omit quiet bytes)
  unfolding plain_round two three four refuse
  round-Keeps [] h = tt
  round-Keeps (b0 ∷ []) h = ground arith
  round-Keeps (b0 ∷ b1 ∷ []) h = ground (arith, code_point_2_lem b0 b1)
  round-Keeps (b0 ∷ b1 ∷ b2 ∷ []) h =
      ground (arith, code_point_2_lem b0 b1, code_point_3_lem b0 b1 b2)
  round-Keeps (b0 ∷ b1 ∷ b2 ∷ b3 ∷ bs) h =
      ground
        (arith, code_point_2_lem b0 b1, code_point_3_lem b0 b1 b2, code_point_4_lem b0 b1 b2 b3)

  -- For every list of bytes and both flags, every item that `to_ucs4` gives is a scalar value.
  pub to_ucs4-IsScalar_utf8 :
      (input : List ℕ) → All IsByte input → All IsScalar (to_ucs4 omit quiet input).items
  to_ucs4-IsScalar_utf8 input h = rw (to_ucs4_plain_utf8 omit quiet input) (
      run-All (All IsByte) IsScalar (plain_round omit quiet) round-Keeps (suc (length input)) input
        h)

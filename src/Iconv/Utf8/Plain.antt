-- ===== src/Iconv/Utf8/Plain.antt =====
-- A UTF-8 decoder that has the whole rest of the input before it, in place of the read-ahead
-- buffer.
use posixutils_rs.Prelude.{
  ℕ, suc, ◌≤◌, ◌≡◌, ◌∙◌, ◌⊎◌, inl, inr, refl, List, [], ◌∷◌, ◌++◌, Bool, leb, arith, if◌then◌else◌,
  length, ap, take-append-drop,
}
use posixutils_rs.Iconv.Stream.{Step, emit, stop, run, run-map_state, map_state}
use posixutils_rs.Iconv.Words.{Reader, start, fill, stream, contains}
use posixutils_rs.Iconv.Words.Laws.{stream-fill, fill_short}
use posixutils_rs.Iconv.Utf8.{
  Message, refuse, two, three, four, invalid_byte, put_buffer, refill, dispatch, decode_round,
  to_ucs4,
}

unfoldable pub plain_round : Bool → Bool → List ℕ → Step Message (List ℕ)
plain_round omit quiet [] = stop []
plain_round omit quiet (byte ∷ rest) =
    if leb byte 0x7F
    then emit (byte ∷ []) [] rest
    else if contains 0xC0 0xDF byte
    then two omit quiet (λ b. b) (byte ∷ rest)
    else if contains 0xE0 0xEF byte
    then three omit quiet (λ b. b) (byte ∷ rest)
    else if contains 0xF0 0xF4 byte
    then four omit quiet (λ b. b) (byte ∷ rest)
    else refuse omit quiet (λ b. b) invalid_byte rest

module _ (omit quiet : Bool) (r : Reader) where
  two_plain :
      (b : List ℕ)
      → (2 ≤ length b) ⊎ (r.input ≡ [])
      → map_state stream (two omit quiet (put_buffer r) b) ≡ two omit quiet (λ t. t) (b ++ r.input)
  unfolding two refuse
  two_plain [] (inr e) = rw e (ground arith)
  two_plain (a ∷ []) (inr e) = rw e (ground arith)
  two_plain [] (inl h) = absurd (omega arith)
  two_plain (a ∷ []) (inl h) = absurd (omega arith)
  two_plain (a ∷ b ∷ t) h = ground arith

  three_plain :
      (b : List ℕ)
      → (3 ≤ length b) ⊎ (r.input ≡ [])
      → map_state stream (three omit quiet (put_buffer r) b)
        ≡ three omit quiet (λ t. t) (b ++ r.input)
  unfolding three refuse
  three_plain [] (inr e) = rw e (ground arith)
  three_plain (a ∷ []) (inr e) = rw e (ground arith)
  three_plain (a ∷ b ∷ []) (inr e) = rw e (ground arith)
  three_plain [] (inl h) = absurd (omega arith)
  three_plain (a ∷ []) (inl h) = absurd (omega arith)
  three_plain (a ∷ b ∷ []) (inl h) = absurd (omega arith)
  three_plain (a ∷ b ∷ c ∷ t) h = ground arith

  four_plain :
      (b : List ℕ)
      → (4 ≤ length b) ⊎ (r.input ≡ [])
      → map_state stream (four omit quiet (put_buffer r) b)
        ≡ four omit quiet (λ t. t) (b ++ r.input)
  unfolding four refuse
  four_plain [] (inr e) = rw e (ground arith)
  four_plain (a ∷ []) (inr e) = rw e (ground arith)
  four_plain (a ∷ b ∷ []) (inr e) = rw e (ground arith)
  four_plain (a ∷ b ∷ c ∷ []) (inr e) = rw e (ground arith)
  four_plain [] (inl h) = absurd (omega arith)
  four_plain (a ∷ []) (inl h) = absurd (omega arith)
  four_plain (a ∷ b ∷ []) (inl h) = absurd (omega arith)
  four_plain (a ∷ b ∷ c ∷ []) (inl h) = absurd (omega arith)
  four_plain (a ∷ b ∷ c ∷ d ∷ t) h = ground arith

module _ (omit quiet : Bool) (r : Reader) where
  -- the same after the top-up that stands before each of the three
  topped_two :
      map_state stream (two omit quiet (put_buffer (fill 2 r)) (fill 2 r).buffer)
      ≡ two omit quiet (λ t. t) (stream r)
  topped_two =
      two_plain omit quiet (fill 2 r) (fill 2 r).buffer (fill_short 2 r)
      ∙ ap (two omit quiet (λ t. t)) (stream-fill 2 r)

  topped_three :
      map_state stream (three omit quiet (put_buffer (fill 3 r)) (fill 3 r).buffer)
      ≡ three omit quiet (λ t. t) (stream r)
  topped_three =
      three_plain omit quiet (fill 3 r) (fill 3 r).buffer (fill_short 3 r)
      ∙ ap (three omit quiet (λ t. t)) (stream-fill 3 r)

  topped_four :
      map_state stream (four omit quiet (put_buffer (fill 4 r)) (fill 4 r).buffer)
      ≡ four omit quiet (λ t. t) (stream r)
  topped_four =
      four_plain omit quiet (fill 4 r) (fill 4 r).buffer (fill_short 4 r)
      ∙ ap (four omit quiet (λ t. t)) (stream-fill 4 r)

-- After the refill the buffer is empty only at the end of the input.
refill_cases :
    (b input : List ℕ)
    → let r = refill (record { buffer = b; input = input }) in
      (r.buffer ≡ [] → r.input ≡ []) × (stream r ≡ b ++ input)
unfolding fill
refill_cases [] [] = (λ _. refl, refl)
refill_cases [] (x ∷ xs) = (λ e. cc, take-append-drop 4 (x ∷ xs))
refill_cases (b ∷ bs) input = (λ e. cc, refl)

module _ (omit quiet : Bool) where
  dispatch_plain :
      (r : Reader) (b : List ℕ)
      → r.buffer ≡ b
      → (b ≡ [] → r.input ≡ [])
      → map_state stream (dispatch omit quiet r b) ≡ plain_round omit quiet (b ++ r.input)
  unfolding dispatch plain_round refuse
  dispatch_plain r [] e h = rw (h refl)
  dispatch_plain r (x ∷ xs) e h =
      let view : stream r ≡ x ∷ xs ++ r.input = ap (λ (t : List ℕ). t ++ r.input) e in
      let t2 : map_state stream (two omit quiet (put_buffer (fill 2 r)) (fill 2 r).buffer)
          ≡ two omit quiet (λ t. t) (x ∷ xs ++ r.input) =
        topped_two omit quiet r ∙ ap (two omit quiet (λ t. t)) view in
      let t3 : map_state stream (three omit quiet (put_buffer (fill 3 r)) (fill 3 r).buffer)
          ≡ three omit quiet (λ t. t) (x ∷ xs ++ r.input) =
        topped_three omit quiet r ∙ ap (three omit quiet (λ t. t)) view in
      let t4 : map_state stream (four omit quiet (put_buffer (fill 4 r)) (fill 4 r).buffer)
          ≡ four omit quiet (λ t. t) (x ∷ xs ++ r.input) =
        topped_four omit quiet r ∙ ap (four omit quiet (λ t. t)) view in
      ground (arith, t2, t3, t4)

  round_plain :
      (r : Reader)
      → map_state stream (decode_round omit quiet r) ≡ plain_round omit quiet (stream r)
  unfolding decode_round
  round_plain r =
      dispatch_plain (refill r) (refill r).buffer refl (refill_cases r.buffer r.input).0
      ∙ ap (plain_round omit quiet) (refill_cases r.buffer r.input).1

  -- For every input and both flags, `to_ucs4` with its read-ahead buffer makes the stream of the
  -- decoder that sees the whole input.
  pub to_ucs4_plain_utf8 :
      (input : List ℕ)
      → to_ucs4 omit quiet input ≡ run (suc (length input)) (plain_round omit quiet) input
  unfolding to_ucs4
  to_ucs4_plain_utf8 input =
      run-map_state stream (decode_round omit quiet) (plain_round omit quiet) round_plain
        (suc (length input)) (start input)

-- ===== src/Iconv/Utf16/Plain.antt =====
-- A UTF-16 decoder that has the whole rest of the input before it, in place of the read-ahead
-- buffer.
use posixutils_rs.Prelude.{
  ℕ, suc, ◌≤◌, ◌≡◌, ◌∙◌, ◌⊎◌, inl, inr, refl, List, [], ◌∷◌, ◌++◌, Bool, true, false, ltb, arith,
  length, ap, Bool-cases, Option, none, some,
}
use posixutils_rs.Iconv.Stream.{Step, run, run-map_state, map_state}
use posixutils_rs.Iconv.Words.{Reader, start, fill, stream}
use posixutils_rs.Iconv.Words.Laws.{stream-fill, fill_short}
use posixutils_rs.Iconv.ByteOrder.{ByteOrder, Endian}
use posixutils_rs.Iconv.Utf16.{
  Variant, Message, State, refuse, surrogate_pair, on_unit, after_bom, with_buffer, put_state,
  refill, decode_round, to_ucs4, endian, check_bom,
}

-- A decoder with no buffer.
pub record Plain : Type 0 where
  pub bytes : List ℕ
  pub determined_variant : Variant
  pub bom_checked : Bool

abbrev pub view : State → Plain
view s = record {
  bytes = stream s.reader;
  determined_variant = s.determined_variant;
  bom_checked = s.bom_checked;
}

abbrev pub put_plain : Variant → List ℕ → Plain
put_plain d b = record { bytes = b; determined_variant = d; bom_checked = true }

module _ (crate : ByteOrder) (target : Endian) (omit quiet : Bool) (variant : Variant) where
  unfoldable pub plain_round : Plain → Step Message Plain
  plain_round p =
      with_buffer crate omit quiet target variant p.determined_variant p.bom_checked
        (λ d e u. surrogate_pair crate omit quiet e (put_plain d) u p.bytes) put_plain p.bytes

  pair_plain :
      (r : Reader) (d : Variant) (e : Endian) (u : ℕ) (b : List ℕ)
      → (4 ≤ length b) ⊎ (r.input ≡ [])
      → map_state view (surrogate_pair crate omit quiet e (put_state r d) u b)
        ≡ surrogate_pair crate omit quiet e (put_plain d) u (b ++ r.input)
  unfolding surrogate_pair refuse
  pair_plain r d e u [] (inr z) = rw z (ground arith)
  pair_plain r d e u (a ∷ []) (inr z) = rw z (ground arith)
  pair_plain r d e u (a ∷ b ∷ []) (inr z) = rw z (ground arith)
  pair_plain r d e u (a ∷ b ∷ c ∷ []) (inr z) = rw z (ground arith)
  pair_plain r d e u [] (inl h) = absurd (omega arith)
  pair_plain r d e u (a ∷ []) (inl h) = absurd (omega arith)
  pair_plain r d e u (a ∷ b ∷ []) (inl h) = absurd (omega arith)
  pair_plain r d e u (a ∷ b ∷ c ∷ []) (inl h) = absurd (omega arith)
  pair_plain r d e u (a ∷ b ∷ c ∷ f ∷ t) h = ground arith

  module _ (r : Reader) (pair : Variant → Endian → ℕ → Step Message State)
      (pair' : Variant → Endian → ℕ → Step Message Plain)
      (agree : (d : Variant) (e : Endian) (u : ℕ) → map_state view (pair d e u) ≡ pair' d e u) where
    unit_plain :
        (d : Variant) (b0 b1 : ℕ) (rest : List ℕ) (o : Option Endian)
        → map_state view (on_unit crate omit quiet (pair d) (put_state r d) b0 b1 rest o)
          ≡ on_unit crate omit quiet (pair' d) (put_plain d) b0 b1 (rest ++ r.input) o
    unfolding on_unit refuse
    unit_plain d b0 b1 rest none = refl
    unit_plain d b0 b1 rest (some e) = ground (arith, agree d e (crate.read_u16 e b0 b1))

    bom_plain :
        (b0 b1 : ℕ) (rest : List ℕ) (c : Variant × Bool)
        → map_state view (after_bom crate omit quiet pair (put_state r) b0 b1 rest c)
          ≡ after_bom crate omit quiet pair' put_plain b0 b1 (rest ++ r.input) c
    unfolding after_bom
    bom_plain b0 b1 rest (d, true) = refl
    bom_plain b0 b1 rest (d, false) = unit_plain d b0 b1 rest (endian d)

    buffer_plain :
        (determined : Variant) (checked : Bool) (b : List ℕ)
        → (2 ≤ length b) ⊎ (r.input ≡ [])
        → map_state view
            (with_buffer crate omit quiet target variant determined checked pair (put_state r) b)
          ≡ with_buffer crate omit quiet target variant determined checked pair' put_plain
              (b ++ r.input)
    unfolding with_buffer
    buffer_plain determined checked [] (inr z) = rw z refl
    buffer_plain determined checked (a ∷ []) (inr z) = rw z refl
    buffer_plain determined checked [] (inl h) = absurd (omega arith)
    buffer_plain determined checked (a ∷ []) (inl h) = absurd (omega arith)
    buffer_plain determined checked (a ∷ b ∷ t) h =
        bom_plain a b t (check_bom crate target variant determined checked a b)

  refill_short : (r : Reader) → (2 ≤ length (refill r).buffer) ⊎ ((refill r).input ≡ [])
  unfolding refill
  refill_short r = elim (Bool-cases (ltb (length r.buffer) 2)) [
    | inl y ↦ rw y (elim (fill_short 4 r) [ inl h ↦ inl (omega arith) | inr e ↦ inr e ])
    | inr n ↦ rw n (inl (ground arith))
  ]

  stream-refill : (r : Reader) → stream (refill r) ≡ stream r
  unfolding refill
  stream-refill r = elim (Bool-cases (ltb (length r.buffer) 2)) [
    | inl y ↦ rw y (stream-fill 4 r)
    | inr n ↦ rw n
  ]

  round_plain :
      (s : State)
      → map_state view (decode_round crate target omit quiet variant s) ≡ plain_round (view s)
  unfolding decode_round plain_round
  round_plain s =
      let r = refill s.reader in
      let r' = fill 4 r in
      buffer_plain r (λ d e u. surrogate_pair crate omit quiet e (put_state r' d) u r'.buffer)
        (λ d e u. surrogate_pair crate omit quiet e (put_plain d) u (stream r))
        (λ d e u.
          pair_plain r' d e u r'.buffer (fill_short 4 r)
          ∙ ap (surrogate_pair crate omit quiet e (put_plain d) u) (stream-fill 4 r))
        s.determined_variant s.bom_checked r.buffer (refill_short s.reader)
      ∙ ap
          (λ (t : List ℕ).
            with_buffer crate omit quiet target variant s.determined_variant s.bom_checked
              (λ d e u. surrogate_pair crate omit quiet e (put_plain d) u t) put_plain t)
          (stream-refill s.reader)

  abbrev pub plain_start : List ℕ → Plain
  plain_start input = record { bytes = input; determined_variant = variant; bom_checked = false }

  -- For every input, `to_ucs4` makes the stream of the decoder with no buffer.
  pub to_ucs4_plain_utf16 :
      (input : List ℕ)
      → to_ucs4 crate target omit quiet variant input
        ≡ run (suc (length input)) plain_round (plain_start input)
  unfolding to_ucs4
  to_ucs4_plain_utf16 input =
      run-map_state view (decode_round crate target omit quiet variant) plain_round round_plain
        (suc (length input))
        (record { reader = start input; determined_variant = variant; bom_checked = false })

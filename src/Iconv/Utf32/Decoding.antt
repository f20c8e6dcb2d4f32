-- ===== src/Iconv/Utf32/Decoding.antt =====
-- What the UTF-32 decoder does with any bytes.
use posixutils_rs.Prelude.{
  ℕ, suc, ◌<◌, ◌≡◌, refl, sym, subst, List, [], ◌∷◌, Bool, true, false, arith, All, length,
}
use posixutils_rs.Iconv.Stream.{finished, Sound, run-Sound}
use posixutils_rs.Iconv.Words.{fill}
use posixutils_rs.Iconv.ByteOrder.{ByteOrder, Endian, little, big}
use posixutils_rs.Iconv.Utf32.{
  Variant, utf32le, utf32be, utf32, State, endian, native, check_bom, with_buffer, on_word,
  after_bom, refill, decode_round, to_ucs4,
}
use posixutils_rs.Iconv.Utf32.RoundTrip.{IsCodePoint, between}

abbrev IsSettled : Variant → Type 0
IsSettled utf32 = ⊥
IsSettled _ = Unit

abbrev Settles : Variant → Bool → Type 0
Settles v true = IsSettled v
Settles v false = Unit

abbrev IsReady : State → Type 0
IsReady s = (s.reader.buffer ≡ []) × Settles s.variant s.bom_checked

abbrev size : State → ℕ
size s = length s.reader.input

native-IsSettled : (target : Endian) → IsSettled (native target)
unfolding native
native-IsSettled little = tt
native-IsSettled big = tt

check_bom-IsSettled :
    (target : Endian) (v : Variant) (checked : Bool) (w : ℕ)
    → Settles v checked
    → IsSettled (check_bom target v checked w).0
unfolding check_bom
check_bom-IsSettled target v true w h = h
check_bom-IsSettled target utf32le false w h = tt
check_bom-IsSettled target utf32be false w h = tt
check_bom-IsSettled target utf32 false w h = ground (arith, native-IsSettled target)

module _ (crate : ByteOrder) (target : Endian) (omit quiet : Bool) where
  word-Sound :
      (s : State) (rest : List ℕ) (v : Variant) (b0 b1 b2 b3 : ℕ)
      → length rest < size s
      → IsSettled v
      → Sound IsReady IsCodePoint size s
          (on_word crate omit quiet (between v true rest) (endian v) b0 b1 b2 b3)
  unfolding on_word endian
  word-Sound s rest utf32le b0 b1 b2 b3 lt h = ground arith
  word-Sound s rest utf32be b0 b1 b2 b3 lt h = ground arith
  word-Sound s rest utf32 b0 b1 b2 b3 lt h = absurd h

  bom-Sound :
      (s : State) (rest : List ℕ) (b0 b1 b2 b3 : ℕ) (c : Variant × Bool)
      → length rest < size s
      → IsSettled c.0
      → Sound IsReady IsCodePoint size s
          (after_bom crate omit quiet (λ v. between v true rest) b0 b1 b2 b3 c)
  unfolding after_bom
  bom-Sound s rest b0 b1 b2 b3 (v, true) lt h = (tt, (refl, h), lt)
  bom-Sound s rest b0 b1 b2 b3 (v, false) lt h = word-Sound s rest v b0 b1 b2 b3 lt h

  round-Sound :
      (v : Variant) (checked : Bool) (input : List ℕ)
      → Settles v checked
      → Sound IsReady IsCodePoint size
          (between v checked input)
          (decode_round crate target omit quiet (between v checked input))
  unfolding decode_round with_buffer refill fill
  round-Sound v checked [] h = tt
  round-Sound v checked (b0 ∷ []) h = tt
  round-Sound v checked (b0 ∷ b1 ∷ []) h = tt
  round-Sound v checked (b0 ∷ b1 ∷ b2 ∷ []) h = tt
  round-Sound v checked (b0 ∷ b1 ∷ b2 ∷ b3 ∷ rest) h =
      bom-Sound (between v checked (b0 ∷ b1 ∷ b2 ∷ b3 ∷ rest)) rest b0 b1 b2 b3
        (check_bom target v checked (crate.read_u32 big b0 b1 b2 b3)) (omega arith)
        (check_bom-IsSettled target v checked (crate.read_u32 big b0 b1 b2 b3) h)

  state-Sound :
      (s : State)
      → IsReady s
      → Sound IsReady IsCodePoint size s (decode_round crate target omit quiet s)
  state-Sound s (e, h) =
      let at = λ (b : List ℕ). record s { reader = record s.reader { buffer = b } } in
      subst
        (λ (b : List ℕ).
          Sound IsReady IsCodePoint size (at b) (decode_round crate target omit quiet (at b)))
        (sym e) (round-Sound s.variant s.bom_checked s.reader.input h)

  -- For every input, under every flag and variant, `to_ucs4` ends by its own, without `exit` and
  -- without a panic, and none of its items is above U+10FFFF.
  pub to_ucs4_sound_utf32 :
      (v : Variant) (input : List ℕ)
      → All IsCodePoint (to_ucs4 crate target omit quiet v input).items
        × ((to_ucs4 crate target omit quiet v input).status ≡ finished)
  unfolding to_ucs4
  to_ucs4_sound_utf32 v input =
      run-Sound IsReady IsCodePoint size (decode_round crate target omit quiet) state-Sound
        (suc (length input)) (between v false input) (refl, tt) (omega arith)

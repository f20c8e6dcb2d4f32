-- ===== src/Iconv/Utf16/Decoding.antt =====
-- What the UTF-16 decoder does with any bytes.
use posixutils_rs.Prelude.{
  ℕ, suc, ◌<◌, ◌≤◌, ◌≡◌, refl, List, [], ◌∷◌, Bool, true, false, arith, All, length,
}
use posixutils_rs.Iconv.Stream.{Step, emit, stop, exit, panic, finished, Sound, run-Sound}
use posixutils_rs.Iconv.Words.{IsScalar, IsByte, contains}
use posixutils_rs.Iconv.ByteOrder.{ByteOrder, Endian, little, big}
use posixutils_rs.Iconv.Utf16.{
  Variant, utf16le, utf16be, utf16, Message, endian, native, check_bom, with_buffer, on_unit,
  after_bom, surrogate_pair, refuse, to_ucs4,
}
use posixutils_rs.Iconv.Utf16.Plain.{
  Plain, put_plain, plain_round, to_ucs4_plain_utf16, plain_start,
}

abbrev IsSettled : Variant → Type 0
IsSettled utf16 = ⊥
IsSettled _ = Unit

-- Before the test for the mark the variant is the caller's; after it the byte order is known.
abbrev Settles : Variant → Bool → Variant → Type 0
Settles variant true d = IsSettled d
Settles variant false d = (d ≡ variant)

abbrev IsReady : Variant → Plain → Type 0
IsReady variant p = All IsByte p.bytes × Settles variant p.bom_checked p.determined_variant

-- What a round on `n` bytes may do.
abbrev IsGood : ℕ → Step Message Plain → Type 0
IsGood n (emit xs es p) =
    All IsScalar xs
    × All IsByte p.bytes
    × (p.bom_checked ≡ true)
    × IsSettled p.determined_variant
    × (length p.bytes < n)
IsGood n (stop es) = Unit
IsGood n _ = ⊥

native-IsSettled : (target : Endian) → IsSettled (native target)
unfolding native
native-IsSettled little = tt
native-IsSettled big = tt

check_bom-IsSettled :
    (crate : ByteOrder) (target : Endian) (variant d : Variant) (checked : Bool) (b0 b1 : ℕ)
    → Settles variant checked d
    → IsSettled (check_bom crate target variant d checked b0 b1).0
unfolding check_bom
check_bom-IsSettled crate target variant d true b0 b1 h = h
check_bom-IsSettled crate target utf16le d false b0 b1 h = rw h tt
check_bom-IsSettled crate target utf16be d false b0 b1 h = rw h tt
check_bom-IsSettled crate target utf16 d false b0 b1 h = ground (arith, native-IsSettled target)

module _ (crate : ByteOrder) (target : Endian) (omit quiet : Bool) (variant : Variant) where
  read-lt : (e : Endian) (a b : ℕ) → IsByte a → IsByte b → crate.read_u16 e a b < 65536
  read-lt little a b p q = omega (arith, crate.read_u16_little a b)
  read-lt big a b p q = omega (arith, crate.read_u16_big a b)

  pair-IsGood :
      (d : Variant) (e : Endian) (u : ℕ) (bytes : List ℕ)
      → IsSettled d
      → All IsByte bytes
      → 2 ≤ length bytes
      → contains 0xD800 0xDBFF u ≡ true
      → IsGood (length bytes) (surrogate_pair crate omit quiet e (put_plain d) u bytes)
  unfolding surrogate_pair refuse
  pair-IsGood d e u [] s h l c = absurd (omega arith)
  pair-IsGood d e u (b0 ∷ []) s h l c = absurd (omega arith)
  pair-IsGood d e u (b0 ∷ b1 ∷ []) s h l c = ground arith
  pair-IsGood d e u (b0 ∷ b1 ∷ b2 ∷ []) s h l c = ground arith
  pair-IsGood d e u (b0 ∷ b1 ∷ b2 ∷ b3 ∷ rest) s h l c = ground arith

  unit-IsGood :
      (d : Variant) (b0 b1 : ℕ) (rest : List ℕ)
      → IsSettled d
      → All IsByte (b0 ∷ b1 ∷ rest)
      → IsGood (length (b0 ∷ b1 ∷ rest)) (
          on_unit crate omit quiet
            (λ e u. surrogate_pair crate omit quiet e (put_plain d) u (b0 ∷ b1 ∷ rest))
            (put_plain d)
            b0
            b1
            rest
            (endian d))
  unfolding on_unit endian refuse
  unit-IsGood utf16 b0 b1 rest s h = absurd s
  unit-IsGood utf16le b0 b1 rest s h = ground (
    arith,
    read-lt little b0 b1,
    pair-IsGood utf16le little (crate.read_u16 little b0 b1) (b0 ∷ b1 ∷ rest),
  )
  unit-IsGood utf16be b0 b1 rest s h = ground (
    arith,
    read-lt big b0 b1,
    pair-IsGood utf16be big (crate.read_u16 big b0 b1) (b0 ∷ b1 ∷ rest),
  )

  bom-IsGood :
      (b0 b1 : ℕ) (rest : List ℕ) (c : Variant × Bool)
      → IsSettled c.0
      → All IsByte (b0 ∷ b1 ∷ rest)
      → IsGood (length (b0 ∷ b1 ∷ rest)) (
          after_bom crate omit quiet
            (λ d e u. surrogate_pair crate omit quiet e (put_plain d) u (b0 ∷ b1 ∷ rest))
            put_plain
            b0
            b1
            rest
            c)
  unfolding after_bom
  bom-IsGood b0 b1 rest (d, true) s h = (tt, h.1.1, refl, s, omega arith)
  bom-IsGood b0 b1 rest (d, false) s h = unit-IsGood d b0 b1 rest s h

  round-IsGood :
      (bytes : List ℕ) (d : Variant) (checked : Bool)
      → All IsByte bytes
      → Settles variant checked d
      → IsGood (length bytes) (
          plain_round crate target omit quiet variant
            (record { bytes = bytes; determined_variant = d; bom_checked = checked }))
  unfolding plain_round with_buffer
  round-IsGood [] d checked h s = tt
  round-IsGood (b0 ∷ []) d checked h s = tt
  round-IsGood (b0 ∷ b1 ∷ rest) d checked h s =
      bom-IsGood b0 b1 rest (check_bom crate target variant d checked b0 b1)
        (check_bom-IsSettled crate target variant d checked b0 b1 s) h

  IsGood-Sound :
      (p : Plain) (r : Step Message Plain)
      → IsGood (length p.bytes) r
      → Sound (IsReady variant) IsScalar (λ q. length q.bytes) p r
  IsGood-Sound p (emit xs es q) h = ground (arith, h)
  IsGood-Sound p (stop es) h = tt
  IsGood-Sound p (exit es) h = absurd h
  IsGood-Sound p panic h = absurd h

  -- For every list of bytes, under every flag and variant, `to_ucs4` ends by its own, without
  -- `exit` and without a panic, and all its items are scalar values.
  pub to_ucs4_sound_utf16 :
      (input : List ℕ)
      → All IsByte input
      → All IsScalar (to_ucs4 crate target omit quiet variant input).items
        × ((to_ucs4 crate target omit quiet variant input).status ≡ finished)
  to_ucs4_sound_utf16 input h = rw (to_ucs4_plain_utf16 crate target omit quiet variant input) (
      run-Sound (IsReady variant) IsScalar (λ q. length q.bytes)
        (plain_round crate target omit quiet variant)
        (λ p i.
          IsGood-Sound p (plain_round crate target omit quiet variant p)
            (round-IsGood p.bytes p.determined_variant p.bom_checked i.0 i.1))
        (suc (length input)) (plain_start crate target omit quiet variant input) (h, refl)
        (omega arith))

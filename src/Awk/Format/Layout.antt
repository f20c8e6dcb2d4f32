-- ===== src/Awk/Format/Layout.antt =====
-- How integers and strings stand in their field.
use posixutils_rs.Prelude.{
  ℕ, zero, suc, ◌+◌, ◌-◌, ◌≤◌, ◌≡◌, refl, sym, ap, ◌∙◌, [], ◌∷◌, ◌++◌, append-nil, append_assoc,
  Bool, true, false, not, ◌&&◌, Bool-cases, inl, inr, if◌then◌else◌, length, length-append, arith,
}
use Prim.Native.Nat.{max}
use posixutils_rs.Std.Strings.{Str}
use posixutils_rs.Awk.Format.{FormatArgs, pad_target, write_padded}

abbrev pub repeat : ℕ → ℕ → Str
repeat zero c = []
repeat (suc n) c = c ∷ repeat n c

pub length-repeat : (n c : ℕ) → length (repeat n c) ≡ n
length-repeat zero c = refl
length-repeat (suc n) c = ap suc (length-repeat n c)

repeat-add : (m n c : ℕ) → repeat m c ++ repeat n c ≡ repeat (m + n) c
repeat-add zero n c = ap (λ k. repeat k c) (omega arith)
repeat-add (suc m) n c =
    let e : suc (m + n) ≡ suc m + n = omega arith in
    ap (λ l. c ∷ l) (repeat-add m n c) ∙ ap (λ k. repeat k c) e

pub pad_target-repeat : (target : Str) (n c : ℕ) → pad_target target n c ≡ target ++ repeat n c
unfolding pad_target
pad_target-repeat target zero c = sym (append-nil target)
pad_target-repeat target (suc n) c =
    pad_target-repeat (target ++ c ∷ []) n c ∙ append_assoc target (c ∷ []) (repeat n c)

-- `out` is `prefix` and the digits `ds` behind zeros, so that there are `least` digits at least, in a field of
-- `width` characters, or more if these need more. With `fill`, zeros fill the field, else blanks, on the right
-- if `args` asks for it.
abbrev pub IsField : FormatArgs → Bool → Str → ℕ → Str → Str → Type 0
IsField args fill prefix least ds out =
    (left : ℕ) × ((zeros : ℕ) × ((right : ℕ) × ((out
            ≡ repeat left b' ' ++ prefix ++ repeat zeros b'0' ++ ds ++ repeat right b' ')
          × ((if args.left_justified then left else right) ≡ 0)
          × (if fill
              then (left + right ≡ 0) × (least ≤ zeros + length ds)
              else (zeros ≡ least - length ds))
          × (length out ≡ max args.width (length prefix + max (length ds) least)))))

length-append5 :
    (a b c d e : Str)
    → length (a ++ b ++ c ++ d ++ e) ≡ length a + length b + length c + length d + length e
length-append5 a b c d e = omega (
  arith,
  length-append (a ++ b ++ c ++ d) e,
  length-append (a ++ b ++ c) d,
  length-append (a ++ b) c,
  length-append a b,
)

length-field :
    (left zeros right : ℕ) (prefix ds : Str)
    → length (repeat left b' ' ++ prefix ++ repeat zeros b'0' ++ ds ++ repeat right b' ')
      ≡ left + length prefix + zeros + length ds + right
length-field left zeros right prefix ds =
    rw (length-append5 (repeat left b' ') prefix (repeat zeros b'0') ds (repeat right b' '))
      (rw (length-repeat left b' ', length-repeat zeros b'0', length-repeat right b' ') refl)

module _ (args : FormatArgs) (fill : Bool) (prefix : Str) (precision : ℕ) (ds : Str) where
  -- A field of these parts.
  parts-IsField :
      (left zeros right : ℕ)
      → ((if args.left_justified then left else right) ≡ 0)
      → (if fill
          then (left + right ≡ 0) × (precision ≤ zeros + length ds)
          else (zeros ≡ precision - length ds))
      → left + length prefix + zeros + length ds + right
        ≡ max args.width (length prefix + max (length ds) precision)
      → IsField args fill prefix precision ds
          (repeat left b' ' ++ prefix ++ repeat zeros b'0' ++ ds ++ repeat right b' ')
  parts-IsField left zeros right side enough whole = (
    left,
    (zeros, (right, (refl, side, enough, length-field left zeros right prefix ds ∙ whole))),
  )

pub append_assoc5 : (t a b c d e : Str) → t ++ (a ++ b ++ c ++ d ++ e) ≡ t ++ a ++ b ++ c ++ d ++ e
append_assoc5 t a b c d e =
    sym (append_assoc t (a ++ b ++ c ++ d) e)
    ∙ ap (λ l. l ++ e)
        (sym (append_assoc t (a ++ b ++ c) d)
          ∙ ap (λ l. l ++ d)
              (sym (append_assoc t (a ++ b) c) ∙ ap (λ l. l ++ c) (sym (append_assoc t a b))))

module _ (target : Str) (args : FormatArgs) (prefix : Str) (precision : ℕ) (ds : Str) where
  abbrev padding : ℕ
  padding = args.width - (max (length ds) precision + length prefix)

  abbrev parts : ℕ → ℕ → ℕ → Str
  parts left zeros right =
      repeat left b' ' ++ prefix ++ repeat zeros b'0' ++ ds ++ repeat right b' '

  behind :
      (left zeros right : ℕ)
      → target ++ parts left zeros right
        ≡ target ++ repeat left b' ' ++ prefix ++ repeat zeros b'0' ++ ds ++ repeat right b' '
  behind left zeros right =
      append_assoc5 target (repeat left b' ') prefix (repeat zeros b'0') ds (repeat right b' ')

  on_left :
      (zeros : Bool)
      → args.left_justified ≡ true
      → write_padded target args zeros prefix precision ds
        ≡ target ++ parts 0 (precision - length ds) padding
  unfolding write_padded
  on_left zeros e = rw e (
      pad_target-repeat _ padding b' '
      ∙ ap (λ l. l ++ ds ++ repeat padding b' ')
          (pad_target-repeat (target ++ prefix) (precision - length ds) b'0')
      ∙ ap (λ l. l ++ prefix ++ repeat (precision - length ds) b'0' ++ ds ++ repeat padding b' ')
          (sym (append-nil target))
      ∙ sym (behind 0 (precision - length ds) padding))

  with_zeros :
      (zeros : Bool)
      → args.left_justified ≡ false
      → zeros ≡ true
      → write_padded target args zeros prefix precision ds
        ≡ target ++ parts 0 (padding + (precision - length ds)) 0
  unfolding write_padded
  with_zeros zeros e e' = rw e (
      rw e' (
        ap (λ l. l ++ ds)
          (pad_target-repeat _ (precision - length ds) b'0'
            ∙ ap (λ l. l ++ repeat (precision - length ds) b'0')
                (pad_target-repeat (target ++ prefix) padding b'0')
            ∙ append_assoc (target ++ prefix) (repeat padding b'0')
                (repeat (precision - length ds) b'0')
            ∙ ap (λ l. target ++ prefix ++ l) (repeat-add padding (precision - length ds) b'0'))
        ∙ ap (λ l. l ++ prefix ++ repeat (padding + (precision - length ds)) b'0' ++ ds)
            (sym (append-nil target))
        ∙ sym (append-nil _)
        ∙ sym (behind 0 (padding + (precision - length ds)) 0)))

  with_blanks :
      (zeros : Bool)
      → args.left_justified ≡ false
      → zeros ≡ false
      → write_padded target args zeros prefix precision ds
        ≡ target ++ parts padding (precision - length ds) 0
  unfolding write_padded
  with_blanks zeros e e' = rw e (
      rw e' (
        ap (λ l. l ++ ds)
          (pad_target-repeat _ (precision - length ds) b'0'
            ∙ ap (λ l. l ++ prefix ++ repeat (precision - length ds) b'0')
                (pad_target-repeat target padding b' '))
        ∙ sym (append-nil _)
        ∙ sym (behind padding (precision - length ds) 0)))

  -- The three layouts put a field behind the target.
  pub write_padded-IsField :
      (zeros : Bool)
      → (out : Str) × ((write_padded target args zeros prefix precision ds ≡ target ++ out)
          × IsField args (not args.left_justified && zeros) prefix precision ds out)
  write_padded-IsField zeros = elim (Bool-cases args.left_justified) [
    | inl e ↦ (
      parts 0 (precision - length ds) padding,
      (
        on_left zeros e,
        parts-IsField args (not args.left_justified && zeros) prefix precision ds 0
            (precision - length ds) padding (rw e refl) (rw e refl) (omega arith),
      ),
    )
    | inr e ↦ elim (Bool-cases zeros) [
      | inl e' ↦ (
        parts 0 (padding + (precision - length ds)) 0,
        (
          with_zeros zeros e e',
          parts-IsField args (not args.left_justified && zeros) prefix precision ds 0
              (padding + (precision - length ds)) 0 (rw e refl)
              (rw e (rw e' (omega arith, omega arith))) (omega arith),
        ),
      )
      | inr e' ↦ (
        parts padding (precision - length ds) 0,
        (
          with_blanks zeros e e',
          parts-IsField args (not args.left_justified && zeros) prefix precision ds padding
              (precision - length ds) 0 (rw e refl) (rw e (rw e' refl)) (omega arith),
        ),
      )
    ]
  ]

-- ===== src/Text/Uniq/Groups.antt =====
-- The lines of a file as groups of neighbours, and what `uniq` writes for them.
use posixutils_rs.Prelude.{
  ℕ, suc, ◌+◌, ◌≡◌, ◌≢◌, refl, sym, ap, ◌∙◌, List, [], ◌∷◌, ◌++◌, map, append-nil, Bool, true,
  false, Bool-cases, inl, inr, Option, some, ◌>>=◌, length, All, arith,
}
use mathlib.Core.List.{flatten}
use mathlib.Core.Option.{some-injective}
use posixutils_rs.Std.Strings.{Str, str_eq, str_eq_iff}
use posixutils_rs.Text.Uniq.{Args, process_line, output_result, uniq_from, uniq}

-- A line and those behind it that are like it.
pub record Group : Type 0 where
  pub first : Str
  pub others : List Str

abbrev pub members : Group → List Str
members g = g.first ∷ g.others

module _ (args : Args) where
  -- What `uniq` writes for a group.
  abbrev pub written : Group → Str
  written g = output_result args g.first (length (members g))

  abbrev pub IsLike : Str → Str → Type 0
  IsLike first line = process_line args line ≡ process_line args first

  abbrev pub IsUniform : Group → Type 0
  IsUniform g = All (IsLike g.first) g.others

  -- The group at the head of `groups`, if there is one, has another key than `line`.
  abbrev pub IsApart : Str → List Group → Type 0
  IsApart line [] = Unit
  IsApart line (g ∷ groups) = process_line args g.first ≢ process_line args line

  abbrev pub AreApart : List Group → Type 0
  AreApart [] = Unit
  AreApart (g ∷ groups) = IsApart g.first groups × AreApart groups

  abbrev pub HasKey : Str → Type 0
  HasKey line = (key : Str) × (process_line args line ≡ some key)

  -- `lines` behind the line `last`, of which `seen` have been counted: those that belong to its group, and the other groups.
  Splits : Str → ℕ → List Str → Type 0
  Splits last seen lines =
      (others : List Str) × ((groups : List Group) × ((others ++ flatten (map members groups)
            ≡ lines)
          × All (IsLike last) others
          × All IsUniform groups
          × IsApart last groups
          × AreApart groups
          × (uniq_from args (some last) seen lines
              ≡ some (
                  output_result args last (seen + length others) ++ flatten (map written groups)))))

  -- Where the keys of two lines are compared.
  abbrev either_way : Str → Str → ℕ → List Str → Bool → Option Str
  either_way last line seen lines same = elim same [
    | true ↦ uniq_from args (some last) (seen + 1) lines
    | false ↦
        uniq_from args (some line) 1 lines >>= λ rest. some (output_result args last seen ++ rest)
  ]

  same_step :
      (last line : Str) (seen : ℕ) (lines : List Str)
      → HasKey line
      → IsLike last line
      → uniq_from args (some last) seen (line ∷ lines) ≡ uniq_from args (some last) (seen + 1) lines
  unfolding uniq_from
  same_step last line seen lines (k, e) like =
      let e' : process_line args last ≡ some k = sym like ∙ e in
      rw e (rw e' (ap (either_way last line seen lines) ((str_eq_iff k k).1 refl)))

  other_step :
      (last line : Str) (seen : ℕ) (lines : List Str)
      → (key key' : Str) → process_line args line ≡ some key
      → process_line args last ≡ some key'
      → str_eq key key' ≡ false
      → uniq_from args (some last) seen (line ∷ lines)
        ≡ uniq_from args (some line) 1 lines >>= λ rest. some (output_result args last seen ++ rest)
  unfolding uniq_from
  other_step last line seen lines key key' e e' d =
      rw e (rw e' (ap (either_way last line seen lines) d))

  counted :
      (line : Str) (m n : ℕ) (rest : Str)
      → m ≡ n
      → output_result args line m ++ rest ≡ output_result args line n ++ rest
  counted line m n rest e = ap (λ k. output_result args line k ++ rest) e

  differ_keys : (key key' : Str) → str_eq key key' ≡ false → some key ≢ some key'
  differ_keys key key' d e = let same = (str_eq_iff key key').1 (some-injective key key' e) in cc

  splits :
      (last : Str) (seen : ℕ) (lines : List Str)
      → HasKey last
      → All HasKey lines
      → Splits last seen lines
  unfolding Splits uniq_from flatten
  splits last seen [] h hs = (
    [],
    (
      [],
      (
        refl,
        tt,
        tt,
        tt,
        tt,
        ap some (
            sym (append-nil (output_result args last seen))
            ∙ counted last seen (seen + 0) [] (omega arith)),
      ),
    ),
  )
  splits last seen (line ∷ lines) (key', e') ((key, e), hs) = elim (Bool-cases (str_eq key key')) [
    | inl same ↦
        let keys : key ≡ key' = (str_eq_iff key key').0 same in
        let like : IsLike last line = e ∙ ap some keys ∙ sym e' in
        let (others, (groups, (whole, likes, uniform, apart, aparts, result))) =
          splits last (seen + 1) lines (key', e') hs in
        (
          line ∷ others,
          (
            groups,
            (
              ap (λ l. line ∷ l) whole,
              (like, likes),
              uniform,
              apart,
              aparts,
              same_step last line seen lines (key, e) like
                  ∙ result
                  ∙ ap some (
                      counted last (seen + 1 + length others) (seen + suc (length others))
                        (flatten (map written groups)) (omega arith)),
            ),
          ),
        )
    | inr differ ↦
        let (others, (groups, (whole, likes, uniform, apart, aparts, result))) =
          splits line 1 lines (key, e) hs in
        (
          [],
          (
            record { first = line; others = others } ∷ groups,
            (
              ap (λ l. line ∷ l) whole,
              tt,
              (likes, uniform),
              λ q. differ_keys key key' differ (sym e ∙ q ∙ e'),
              (apart, aparts),
              other_step last line seen lines key key' e e' differ
                  ∙ rw result (
                      ap some (
                        ap (λ o. output_result args last seen ++ o)
                          (counted line (1 + length others) (suc (length others))
                            (flatten (map written groups)) (omega arith))
                        ∙ counted last seen (seen + 0)
                            (written (record { first = line; others = others })
                              ++ flatten (map written groups))
                            (omega arith))),
            ),
          ),
        )
  ]

  -- If no line panics under the options -f and -s, `uniq` ends, and there is a division of the file
  -- into groups of neighbours such that the lines of a group are alike under these options, the
  -- first lines of neighbouring groups are not, and what is written is, group by group,
  -- `output_result` of the first line of the group and the number of its lines.
  pub uniq-groups :
      (lines : List Str)
      → All HasKey lines
      → (groups : List Group) × ((flatten (map members groups) ≡ lines)
          × All IsUniform groups
          × AreApart groups
          × (uniq args lines ≡ some (flatten (map written groups))))
  unfolding uniq uniq_from flatten Splits
  uniq-groups [] h = ([], (refl, tt, tt, refl))
  uniq-groups (line ∷ lines) ((key, e), hs) =
      let (others, (groups, (whole, likes, uniform, apart, aparts, result))) =
        splits line 1 lines (key, e) hs in
      (
        record { first = line; others = others } ∷ groups,
        (
          ap (λ l. line ∷ l) whole,
          (likes, uniform),
          (apart, aparts),
          rw e (
              result
              ∙ ap some (
                  counted line (1 + length others) (suc (length others))
                    (flatten (map written groups)) (omega arith))),
        ),
      )

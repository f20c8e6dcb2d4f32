-- ===== src/Process/Xargs/Reading.antt =====
-- The whole run of `read_and_spawn` on arguments that are not divided by null bytes.
use posixutils_rs.Prelude.{
  ℕ, suc, ◌≡◌, refl, sym, ap, ◌∙◌, subst, List, [], ◌∷◌, ◌++◌, map, append-nil, append_assoc, Bool,
  true, false, Option, some, length, All, All-append, arith,
}
use mathlib.Core.List.{flatten, map-append}
use posixutils_rs.Std.Strings.{Str}
use posixutils_rs.Process.Xargs.{
  Args, ParseState, new, full, with_args, parse_buf, parse_chars, postprocess,
}
use posixutils_rs.Process.Xargs.Parsing.{
  behind, limits, parse_chars-append, parse_chars-behind, limits-parse_chars,
}
use posixutils_rs.Process.Xargs.Spawning.{spawn_all, parse_read, read_all, after}
use posixutils_rs.Process.Xargs.Limits.{Fits, Agrees}
use posixutils_rs.Process.Xargs.Ending.{
  All-left, All-right, command_line, AllAllowed, ran, spawn_all-Drains,
}

-- What is parsed comes behind what was ready.
more_args :
    (st : ParseState) (buf : List ℕ)
    → (parse_chars st buf).args ≡ st.args ++ (parse_chars (with_args [] st) buf).args
more_args st buf =
    ap (λ (args : List Str). (parse_chars (with_args args st) buf).args) (sym (append-nil st.args))
    ∙ ap (λ (s : ParseState). s.args) (parse_chars-behind st.args (with_args [] st) buf)

pub flatten-append {ℓ} :
    {A : Type ℓ} (xs ys : List (List A)) → flatten (xs ++ ys) ≡ flatten xs ++ flatten ys
unfolding flatten
flatten-append [] ys = refl
flatten-append (x ∷ xs) ys =
    ap (λ l. x ++ l) (flatten-append xs ys) ∙ sym (append_assoc x (flatten xs) (flatten ys))

module _ (args : Args) where
  pub after-ran :
      (xs ys : List (List Str)) (st : ParseState)
      → after (map (command_line args) xs) (ran args ys st) ≡ ran args (xs ++ ys) st
  after-ran xs ys st =
      ap (λ (l : List (List Str)). record { invoked = l; state = st; ok = true })
        (sym (map-append (command_line args) xs ys))

  -- The arguments of the input that are not in `gone` are ready in `st`.
  abbrev pub IsRead : List Str → List ℕ → ParseState → Type 0
  IsRead gone input st = behind gone st ≡ parse_chars (new args) input

  pub IsRead-Agrees :
      (gone : List Str) (input : List ℕ) (st : ParseState) → IsRead gone input st → Agrees args st
  IsRead-Agrees gone input st e = ap limits e ∙ limits-parse_chars (new args) input

  IsRead-parse_chars :
      (gone : List Str) (input buf : List ℕ) (st : ParseState)
      → IsRead gone input st
      → IsRead gone (input ++ buf) (parse_chars st buf)
  IsRead-parse_chars gone input buf st e =
      sym (parse_chars-behind gone st buf)
      ∙ ap (λ s. parse_chars s buf) e
      ∙ sym (parse_chars-append (new args) input buf)

  IsRead-left :
      (gone batch : List Str) (left : List Str) (input : List ℕ) (st : ParseState)
      → batch ++ left ≡ st.args
      → IsRead gone input st
      → IsRead (gone ++ batch) input (with_args left st)
  IsRead-left gone batch left input st parts e =
      ap (λ (l : List Str). with_args l st)
        (append_assoc gone batch left ∙ ap (λ l. gone ++ l) parts)
      ∙ e

  -- The arguments that are ready are some of those of a longer input.
  IsRead-Fits :
      (gone : List Str) (input rest : List ℕ) (st : ParseState)
      → IsRead gone input st
      → All (Fits args) (parse_chars (new args) (input ++ rest)).args
      → All (Fits args) st.args
  IsRead-Fits gone input rest st e fits =
      let whole : (parse_chars (new args) (input ++ rest)).args
          ≡ (gone ++ st.args) ++ (parse_chars (with_args [] st) rest).args =
        ap (λ (s : ParseState). s.args) (parse_chars-append (new args) input rest)
        ∙ ap (λ (s : ParseState). (parse_chars s rest).args) (sym e)
        ∙ more_args (behind gone st) rest in
      All-right (Fits args) gone st.args
        (All-left (Fits args) (gone ++ st.args) _ (subst (All (Fits args)) whole fits))

module _ (from_utf8_lossy : List ℕ → Str) (exec : Str → List Str → Bool) (args : Args) where
  module _ (not_null : args.null_mode ≡ false) (no_eof : args.eofstr ≡ []) where
    parse_read_lem :
        (st : ParseState) (buf : List ℕ)
        → Agrees args st
        → parse_read from_utf8_lossy exec args st buf ≡ parse_chars st buf
    unfolding postprocess parse_buf
    parse_read_lem st buf agrees =
        let skip : st.skip_remainder ≡ false =
          ap (λ (l : ℕ × ℕ × ℕ × Option ℕ × Bool × List ℕ). l.4) agrees in
        rw not_null (rw no_eof (rw skip refl))

    module _ (starts : (line : List Str) → exec args.util line ≡ true)
        (room : full (new args) ≡ false) where
      -- The reads that follow on `input` run batches, behind the arguments `gone`.
      abbrev pub Reads : ParseState → List Str → List ℕ → List (List ℕ) → Type 0
      Reads st gone input reads =
          (batches : List (List Str)) × ((st' : ParseState) × ((read_all from_utf8_lossy exec args
                  st reads
                ≡ some (ran args batches st'))
              × IsRead args (gone ++ flatten batches) (input ++ flatten reads) st'
              × AllAllowed args batches
              × (full st' ≡ false)))

      one_read :
          (st st' : ParseState) (buf : List ℕ) (reads : List (List ℕ)) (xs ys : List (List Str))
          (left : List Str)
          → Agrees args st
          → spawn_all from_utf8_lossy exec
              (suc (length (parse_chars st buf).args))
              args
              (parse_chars st buf)
            ≡ some (ran args xs (with_args left (parse_chars st buf)))
          → read_all from_utf8_lossy exec args (with_args left (parse_chars st buf)) reads
            ≡ some (ran args ys st')
          → read_all from_utf8_lossy exec args st (buf ∷ reads) ≡ some (ran args (xs ++ ys) st')
      unfolding read_all
      one_read st st' buf reads xs ys left agrees first rest =
          rw (parse_read_lem st buf agrees)
            (rw first (rw rest (ap some (after-ran args xs ys st'))))

      pub loop-Reads :
          (reads : List (List ℕ)) (st : ParseState) (gone : List Str) (input : List ℕ)
          → IsRead args gone input st
          → full st ≡ false
          → All (Fits args) (parse_chars (new args) (input ++ flatten reads)).args
          → Reads st gone input reads
      unfolding read_all flatten
      loop-Reads [] st gone input read f fits = (
        [],
        (
          st,
          (
            refl,
            ap (λ (l : List Str). behind l st) (append-nil gone)
                ∙ read
                ∙ ap (λ (l : List ℕ). parse_chars (new args) l) (sym (append-nil input)),
            tt,
            f,
          ),
        ),
      )
      loop-Reads (buf ∷ reads) st gone input read f fits =
          let st1 = parse_chars st buf in
          let read1 = IsRead-parse_chars args gone input buf st read in
          let longer = append_assoc input buf (flatten reads) in
          let fits1 =
            subst (λ (l : List ℕ). All (Fits args) (parse_chars (new args) l).args) (sym longer)
              fits in
          let agrees = IsRead-Agrees args gone input st read in
          let agrees1 = IsRead-Agrees args gone (input ++ buf) st1 read1 in
          let (xs, (left, (run, parts, within, ends))) =
            spawn_all-Drains from_utf8_lossy exec args starts room (length st1.args) st1 st1.args
              agrees1 (omega arith)
              (IsRead-Fits args gone (input ++ buf) (flatten reads) st1 read1 fits1) in
          let (ys, (st', (run', read', within', ends'))) =
            loop-Reads reads (with_args left st1) (gone ++ flatten xs) (input ++ buf)
              (IsRead-left args gone (flatten xs) left (input ++ buf) st1 parts read1) ends fits1 in
          (
            xs ++ ys,
            (
              st',
              (
                one_read st st' buf reads xs ys left agrees run run',
                ap (λ (l : List Str). behind l st')
                      (ap (λ l. gone ++ l) (flatten-append xs ys)
                        ∙ sym (append_assoc gone (flatten xs) (flatten ys)))
                    ∙ read'
                    ∙ ap (λ (l : List ℕ). parse_chars (new args) l) longer,
                All-append _ xs ys within within',
                ends',
              ),
            ),
          )

-- ===== src/Text/Uniq.antt =====
-- text/uniq.rs: `validate_args`, `process_line`, `output_result` and the loop of `uniq`, on the lines of a file. A
-- line is the list of its characters, and a character is its code point; `none` is a panic.
pub mod Groups
mod Tests
use posixutils_rs.Prelude.{
  ℕ, zero, suc, ◌+◌, ◌-◌, ◌<◌, List, [], ◌∷◌, ◌++◌, Bool, true, false, not, ◌&&◌, ◌||◌, ltb, leb,
  ◌==◌, if◌then◌else◌, Option, none, some, ◌>>=◌,
}
use posixutils_rs.Std.Chars.{is_whitespace, len_utf8, len}
use posixutils_rs.Std.Strings.{Str, str_eq}
use posixutils_rs.Std.Numerals.{show_digits}

-- The options that the loop looks at.
pub record Args : Type 0 where
  pub count : Bool
  pub repeated : Bool
  pub unique : Bool
  pub fields : Option ℕ
  pub chars : Option ℕ

-- Whether the options are accepted.
abbrev pub validate_args : Args → Bool
validate_args args =
    not (args.unique && args.repeated || args.count && args.repeated || args.count && args.unique)

-- `[c..]`: an index within a character panics.
unfoldable pub slice_from : ℕ → Str → Option Str
slice_from zero s = some s
slice_from (suc i) [] = none
slice_from (suc i) (c ∷ s) =
    let rest = slice_from (suc i - len_utf8 c) s in if leb (len_utf8 c) (suc i) then rest else none

-- The `skip_while`, with `f` fields to skip and `field_count` blanks passed over.
unfoldable pub skip_fields : ℕ → ℕ → Str → Str
skip_fields f field_count [] = []
skip_fields f field_count (c ∷ s) =
    let next = skip_fields f (field_count + 1) s in
    let same = skip_fields f field_count s in
    if is_whitespace c then if leb (f - 1) field_count then c ∷ s else next else same

abbrev pub without_fields : Option ℕ → Str → Str
without_fields none line = line
without_fields (some zero) line = line
without_fields (some (suc f)) line = skip_fields (suc f) 0 line

abbrev pub without_chars : Option ℕ → Str → Option Str
without_chars none s = some s
without_chars (some c) s = if ltb c (len s) then slice_from c s else some []

abbrev pub or_line : Str → Str → Str
or_line line [] = line
or_line line (c ∷ processed) = c ∷ processed

unfoldable pub process_line : Args → Str → Option Str
process_line args [] = some []
process_line args (c ∷ line) =
    without_chars args.chars (without_fields args.fields (c ∷ line)) >>= λ processed.
    some (or_line (c ∷ line) processed)

-- What is written for a line and its count, which has 20 digits at most.
unfoldable pub output_result : Args → Str → ℕ → Str
output_result args line count =
    if args.count
    then show_digits 20 count ++ 32 ∷ line ++ 10 ∷ []
    else if args.repeated && ltb 1 count
    then line ++ 10 ∷ []
    else if args.unique && count == 1
    then line ++ 10 ∷ []
    else if not args.repeated && not args.unique
    then line ++ 10 ∷ []
    else []

-- The loop and what follows it, from `last_line` and `current_count` on.
unfoldable pub uniq_from : Args → Option Str → ℕ → List Str → Option Str
uniq_from args none count [] = some []
uniq_from args (some last) count [] = some (output_result args last count)
uniq_from args none count (line ∷ lines) = do
  _ ← process_line args line
  uniq_from args (some line) 1 lines
uniq_from args (some last) count (line ∷ lines) = do
  processed_line ← process_line args line
  processed_last_line ← process_line args last
  elim (str_eq processed_line processed_last_line) [
    | true ↦ uniq_from args (some last) (count + 1) lines
    | false ↦
        uniq_from args (some line) 1 lines >>= λ rest. some (output_result args last count ++ rest)
  ]

unfoldable pub uniq : Args → List Str → Option Str
uniq args lines = uniq_from args none 0 lines

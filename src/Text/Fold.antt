-- ===== src/Text/Fold.antt =====
-- text/fold.rs: `OutputState`, `find_last_blank` and `fold_file`, on the bytes of a file; a byte is read as the
-- character of that number. What is written is the sequence of the
-- writes; the field `data` is `line` here.
pub mod Loop
pub mod Folded
pub mod Width
mod Tests
use posixutils_rs.Prelude.{
  ℕ, zero, suc, ◌+◌, ◌-◌, ◌%◌, List, [], ◌∷◌, ◌++◌, Bool, true, false, ◌||◌, ◌&&◌, ltb, leb, ◌==◌,
  if◌then◌else◌, Option, none, some, ◌>>=◌, length, take, drop,
}
use mathlib.Core.List.{reverse}
use posixutils_rs.Std.Strings.{Str}

pub record Args : Type 0 where
  pub bytes : Bool
  pub spaces : Bool
  pub width : ℕ

pub record OutputState : Type 0 where
  pub column : ℕ
  pub line : Str
  pub written : List Str

abbrev pub new : OutputState
new = record { column = 0; line = []; written = [] }

abbrev pub push : ℕ → OutputState → OutputState
push byte st = record { column = st.column; line = st.line ++ byte ∷ []; written = st.written }

abbrev pub with_column : ℕ → OutputState → OutputState
with_column column st = record { column = column; line = st.line; written = st.written }

-- `TABSTOP` is 8; a backspace in the first column stays there.
unfoldable pub next_column : Bool → ℕ → ℕ → ℕ
next_column bytes ch column =
    if bytes
    then column + 1
    else if ch == 8
    then column - 1
    else if ch == 9
    then column + (8 - column % 8)
    else if ch == 13
    then 0
    else column + 1

abbrev pub incr_column : Args → ℕ → OutputState → OutputState
incr_column args ch st = with_column (next_column args.bytes ch st.column) st

abbrev pub write_line : OutputState → OutputState
write_line st = record { column = 0; line = []; written = st.written ++ st.line ∷ [] }

-- `is_whitespace` on the characters below 256.
abbrev pub is_whitespace : ℕ → Bool
is_whitespace ch = leb 9 ch && leb ch 13 || ch == 32 || ch == 0x85 || ch == 0xa0

unfoldable pub find_blank : ℕ → Str → Option ℕ
find_blank pos [] = none
find_blank pos (ch ∷ v) =
    let rest = find_blank (suc pos) v in if is_whitespace ch then some pos else rest

-- The position is counted from the end.
unfoldable pub find_last_blank : Str → Option ℕ
find_last_blank v = find_blank 0 (reverse v)

-- `incr_column` for each byte of the spill.
unfoldable pub column_after : Bool → ℕ → Str → ℕ
column_after bytes column [] = column
column_after bytes column (ch ∷ spill) = column_after bytes (next_column bytes ch column) spill

-- A line that is broken behind the index `blankpos`.
abbrev pub break_line : Args → ℕ → OutputState → OutputState
break_line args blankpos st = record {
  column = column_after args.bytes 0 (drop (blankpos + 1) st.line);
  line = drop (blankpos + 1) st.line;
  written = st.written ++ (take (blankpos + 1) st.line ++ 10 ∷ []) ∷ [];
}

-- What a round of the inner loop comes to: its `break` or its next round.
pub data Round : Type 0 where
  stop again : OutputState → Round

abbrev pub is_empty : Str → Bool
is_empty [] = true
is_empty (_ ∷ _) = false

-- The column is beyond the width.
abbrev pub overflow : Args → ℕ → OutputState → Option ℕ → Round
overflow args ch st (some blankpos) = again (break_line args blankpos st)
overflow args ch st none =
    if is_empty st.line then stop (push ch st) else again (write_line (push 10 st))

abbrev pub blank_of : Args → Str → Option ℕ
blank_of args line = if args.spaces then find_last_blank line else none

unfoldable pub round : Args → ℕ → OutputState → Round
round args ch st =
    let st' = incr_column args ch st in
    if leb st'.column args.width
    then stop (push ch st')
    else overflow args ch st' (blank_of args st'.line)

-- `none` is the end of the fuel.
unfoldable pub inner : Args → ℕ → ℕ → OutputState → Option OutputState
inner args ch zero st = none
inner args ch (suc fuel) st = elim (round args ch st) [
  | stop st' ↦ some st'
  | again st' ↦ inner args ch fuel st'
]

unfoldable pub fold_char : Args → ℕ → OutputState → Option OutputState
fold_char args ch st =
    let folded = inner args ch (suc (length st.line)) st in
    if ch == 10 then some (write_line (push ch st)) else folded

unfoldable pub fold_chars : Args → Str → OutputState → Option OutputState
fold_chars args [] st = some st
fold_chars args (ch ∷ buf) st = fold_char args ch st >>= λ st'. fold_chars args buf st'

-- The state behind the last byte. What is left in `line` is never written.
unfoldable pub fold_file : Args → Str → Option OutputState
fold_file args buf = fold_chars args buf new

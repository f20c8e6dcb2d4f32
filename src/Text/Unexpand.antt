-- ===== src/Text/Unexpand.antt =====
-- text/unexpand.rs on a text without the errors of reading. `none` is a list of stops that does not parse.
pub mod Expanded
mod Tests
use posixutils_rs.Prelude.{
  ℕ, zero, suc, ◌+◌, ◌-◌, List, [], ◌∷◌, ◌++◌, map, Bool, true, false, ◌&&◌, ltb, leb, ◌==◌,
  if◌then◌else◌, Option, none, some, ◌>>=◌,
}
use mathlib.Core.List.{flatten}
use posixutils_rs.Std.Strings.{Str, split, lines}
use posixutils_rs.Std.Chars.{is_whitespace}
use posixutils_rs.Std.Numerals.{parse_usize}
use posixutils_rs.Text.Expand.Spaces.{spaces}

unfoldable pub parse_stops : List Str → Option (List ℕ)
parse_stops [] = some []
parse_stops (item ∷ items) =
    parse_usize item >>= λ n. parse_stops items >>= λ stops. some (n ∷ stops)

unfoldable pub parse_tablist : Str → Option (List ℕ)
parse_tablist s = parse_stops (split b',' s)

-- The spaces that a line begins with, and what is behind them.
unfoldable pub space_count : Str → ℕ
space_count [] = 0
space_count (ch ∷ line) = let rest = space_count line in if ch == b' ' then rest + 1 else 0

unfoldable pub skip_spaces : Str → Str
skip_spaces [] = []
skip_spaces (ch ∷ line) = let rest = skip_spaces line in if ch == b' ' then rest else ch ∷ line

pub record Blanks : Type 0 where
  pub result : Str
  pub space_count : ℕ
  pub col : ℕ

-- The loop for one tab stop, which has one round at most: it reaches the stop or breaks.
unfoldable pub fill_to : ℕ → Blanks → Blanks
fill_to tabstop st =
    if ltb 0 st.space_count && ltb st.col tabstop
    then if leb (tabstop - st.col) st.space_count
      then record {
        result = st.result ++ b'\t' ∷ [];
        space_count = st.space_count - (tabstop - st.col);
        col = tabstop;
      }
      else record st { col = st.col + st.space_count }
    else st

unfoldable pub fill : List ℕ → Blanks → Blanks
fill [] st = st
fill (tabstop ∷ tablist) st = fill tablist (fill_to tabstop st)

unfoldable pub convert_leading_blanks : Str → List ℕ → Str
convert_leading_blanks line tablist =
    let st = fill tablist (record { result = []; space_count = space_count line; col = 0 }) in
    st.result ++ spaces st.space_count ++ skip_spaces line

abbrev pub push_part : Str → List Str → List Str
push_part [] parts = parts
push_part (c ∷ part) parts = (c ∷ part) ∷ parts

-- The loop of `split_whitespaces`, with the part that has been read and whether it ends in a word.
unfoldable pub split_from : Str → Bool → Str → List Str
split_from current_part in_word [] = push_part current_part []
split_from current_part in_word (c ∷ line) =
    let word = split_from (current_part ++ c ∷ []) true line in
    let next = split_from (c ∷ []) false line in
    let blank = split_from (current_part ++ c ∷ []) false line in
    if is_whitespace c then if in_word then current_part ∷ next else blank else word

unfoldable pub split_whitespaces : Str → List Str
split_whitespaces line = split_from [] false line

-- The tabs for `space_count` spaces, of which each takes `tabstop`, and the spaces that are left. A round takes
-- a space at least, as the tab stop is 8.
unfoldable pub tabs_for : ℕ → ℕ → ℕ → Str
tabs_for zero tabstop space_count = spaces space_count
tabs_for (suc fuel) tabstop space_count =
    let rest = b'\t' ∷ tabs_for fuel tabstop (space_count - tabstop) in
    if ltb 0 space_count && leb tabstop space_count then rest else spaces space_count

unfoldable pub convert_spaces_to_tabs : Str → ℕ → Str
convert_spaces_to_tabs line tabstop =
    tabs_for (space_count line) tabstop (space_count line) ++ skip_spaces line

unfoldable pub convert_all_blanks : Str → ℕ → Str
convert_all_blanks line tabstop =
    flatten (map (λ part. convert_spaces_to_tabs part tabstop) (split_whitespaces line))

abbrev pub tablist_of : Option Str → Option (List ℕ)
tablist_of none = some (8 ∷ [])
tablist_of (some s) = parse_tablist s

abbrev pub is_none : Option Str → Bool
is_none none = true
is_none (some s) = false

abbrev pub convert : Bool → List ℕ → Str → Str
convert all tablist line =
    if all then convert_all_blanks line 8 else convert_leading_blanks line tablist

-- What is written for a text. All blanks are converted only without a list of stops, where the stop is 8.
unfoldable pub unexpand : Bool → Option Str → Str → Option Str
unexpand all_spaces tablist text = tablist_of tablist >>= λ stops. some (
    flatten
      (map (λ line. convert (all_spaces && is_none tablist) stops line ++ 10 ∷ []) (lines text)))

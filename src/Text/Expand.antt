-- ===== src/Text/Expand.antt =====
-- text/expand.rs: `parse_tablist`, and `expand_file` on the bytes of a file; `none` is a panic.
pub mod Spaces
pub mod Plain
mod Tests
use posixutils_rs.Prelude.{
  ℕ, zero, suc, ◌+◌, ◌-◌, ◌%◌, List, [], ◌∷◌, ◌++◌, map, Bool, true, false, not, ◌||◌, ltb, leb,
  ◌==◌, if◌then◌else◌, Option, none, some, ◌>>=◌, length, get_elem?,
}
use posixutils_rs.Std.Strings.{Str, split}
use posixutils_rs.Std.Numerals.{parse_usize}

pub data TabList : Type 0 where
  uni_stop : ℕ → TabList
  stops : List ℕ → TabList

-- `Ok`, or one of the two messages.
pub data Parsed {ℓ} (A : Type ℓ) : Type ℓ where
  parsed : A → Parsed A
  invalid_stop invalid_order : Parsed A

abbrev pub cons_stop : ℕ → Parsed (List ℕ) → Parsed (List ℕ)
cons_stop n (parsed v) = parsed (n ∷ v)
cons_stop n invalid_stop = invalid_stop
cons_stop n invalid_order = invalid_order

-- Whether a stop may follow the last one.
abbrev pub in_order : Option ℕ → ℕ → Bool
in_order none n = true
in_order (some last) n = ltb last n

-- The loop, with the last stop.
unfoldable pub parse_stops : Option ℕ → List Str → Parsed (List ℕ)
parse_stops last [] = parsed []
parse_stops last (token ∷ tokens) = elim (parse_usize token) [
  | none ↦ invalid_stop
  | some n ↦
      let rest = parse_stops (some n) tokens in
      if in_order last n then cons_stop n rest else invalid_order
]

abbrev pub stops_of : Parsed (List ℕ) → Parsed TabList
stops_of (parsed v) = parsed (stops v)
stops_of invalid_stop = invalid_stop
stops_of invalid_order = invalid_order

-- The separators are the space and the comma.
unfoldable pub parse_tablist : Str → Parsed TabList
parse_tablist tablist = elim (parse_usize tablist) [
  | some tab ↦ parsed (uni_stop tab)
  | none ↦ stops_of (parse_stops none (split 32 (map (λ c. if c == b',' then 32 else c) tablist)))
]

pub record State : Type 0 where
  pub column : ℕ
  pub cur_stop : ℕ
  pub out : Str

abbrev pub start : State
start = record { column = 1; cur_stop = 0; out = [] }

abbrev pub emit : ℕ → ℕ → State → State
emit byte column st = record { column = column; cur_stop = st.cur_stop; out = st.out ++ byte ∷ [] }

abbrev pub space_out : State → State
space_out st = emit 32 (st.column + 1) st

-- `while test { space_out }`
unfoldable pub space_while : (ℕ → Bool) → ℕ → State → Option State
space_while test zero st = none
space_while test (suc fuel) st = elim (test st.column) [
  | true ↦ space_while test fuel (space_out st)
  | false ↦ some st
]

abbrev pub next_stop : State → State
next_stop st = record { column = st.column; cur_stop = st.cur_stop + 1; out = st.out }

-- A tab under a list of stops; the index `cur_stop` is looked up before anything else.
unfoldable pub tab_to_stops : List ℕ → State → Option State
tab_to_stops tabvec st = do
  last_tab ← get_elem? tabvec (length tabvec - 1)
  next_tab ← get_elem? tabvec st.cur_stop
  if leb last_tab st.column then some (space_out st) else do
    st' ← space_while (λ column. ltb column next_tab) (suc next_tab) st
    some (space_out (next_stop st'))

-- A remainder by 0 panics.
unfoldable pub tab : TabList → State → Option State
tab (uni_stop zero) st = none
tab (uni_stop (suc n)) st =
    space_while (λ column. not (column % suc n == 0)) (suc (suc n)) st >>= λ st'.
    some (space_out st')
tab (stops tabvec) st = tab_to_stops tabvec st

unfoldable pub expand_byte : TabList → ℕ → State → Option State
expand_byte tablist byte st =
    if byte == 8
    then some (emit byte (if ltb 1 st.column then st.column - 1 else st.column) st)
    else if byte == 13 || byte == 10
    then some (emit byte 1 st)
    else if not (byte == 9)
    then some (emit byte (st.column + 1) st)
    else tab tablist st

unfoldable pub expand_bytes : TabList → Str → State → Option State
expand_bytes tablist [] st = some st
expand_bytes tablist (byte ∷ buf) st =
    expand_byte tablist byte st >>= λ st'. expand_bytes tablist buf st'

-- What is written for a file.
unfoldable pub expand_file : TabList → Str → Option Str
expand_file tablist buf = expand_bytes tablist buf start >>= λ st. some st.out

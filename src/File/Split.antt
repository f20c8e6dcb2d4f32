-- ===== src/File/Split.antt =====
-- file/split.rs: the suffixes, and the pieces that a text is split into. The errors of the file system are left
-- out; `none` is a panic or a loop without an end.
pub mod Counting
pub mod Pieces
mod Tests
use posixutils_rs.Prelude.{
  ℕ, zero, suc, ◌+◌, ◌-◌, List, [], ◌∷◌, ◌++◌, Bool, true, false, leb, ◌==◌, if◌then◌else◌, Option,
  none, some, ◌>>=◌, length, take, drop,
}
use Prim.Native.Nat.{min}
use posixutils_rs.Std.Strings.{Str}

-- The command line asks for one letter at least, and so does `debug_assert!(len > 0)`: no suffix is empty.
unfoldable pub new_suffix : ℕ → Str
new_suffix zero = []
new_suffix (suc len) = b'a' ∷ new_suffix len

-- The loop of `next` from the last character on; `carry` tells that all characters were `z`.
pub record Stepped : Type 0 where
  pub carry : Bool
  pub suffix : Str

unfoldable pub step : Str → Stepped
step [] = record { carry = true; suffix = [] }
step (ch ∷ s) =
    let rest = step s in
    if rest.carry
    then if ch == b'z'
      then record { carry = true; suffix = b'a' ∷ rest.suffix }
      else record { carry = false; suffix = suc ch ∷ rest.suffix }
    else record { carry = false; suffix = ch ∷ rest.suffix }

-- The suffix that `next` returns, and the one that is left. On an empty suffix, which no state has, the source
-- panics at `len() - 1`; the value here stands for nothing in that case.
unfoldable pub next : Str → Option Str × Str
next suffix = (if (step suffix).carry then none else some suffix, (step suffix).suffix)

pub record OutFile : Type 0 where
  pub name : Str
  pub content : List ℕ

-- `closed` are the files that have been closed.
pub record OutputState : Type 0 where
  pub prefix : Str
  pub boundary : ℕ
  pub suffix : Str
  pub count : ℕ
  pub outf : Option OutFile
  pub closed : List OutFile

abbrev pub new : Str → ℕ → ℕ → OutputState
new prefix boundary suffix_len = record {
  prefix = prefix;
  boundary = boundary;
  suffix = new_suffix suffix_len;
  count = 0;
  outf = none;
  closed = [];
}

-- `Ok`, or the error "maximum suffix reached".
pub data Outcome : Type 0 where
  done exhausted : OutputState → Outcome

abbrev pub opened : OutputState → Option Str × Str → Outcome
opened st (none, suffix) = exhausted (record st { suffix = suffix })
opened st (some s, suffix) =
    done
      (record st { suffix = suffix; outf = some (record { name = st.prefix ++ s; content = [] }) })

abbrev pub open_new : OutputState → Option OutFile → Outcome
open_new st (some f) = done st
open_new st none = opened st (next st.suffix)

unfoldable pub open_output : OutputState → Outcome
open_output st = open_new st st.outf

abbrev pub close_file : OutputState → Option OutFile → OutputState
close_file st none = st
close_file st (some f) = record st { outf = none; count = 0; closed = st.closed ++ f ∷ [] }

unfoldable pub close_output : OutputState → OutputState
close_output st = close_file st st.outf

unfoldable pub incr_output : ℕ → OutputState → Option OutputState
incr_output n st =
    let st' = record st { count = st.count + n } in
    if leb st'.count st.boundary
    then some (if st'.count == st.boundary then close_output st' else st')
    else none

abbrev pub write_to : List ℕ → OutputState → Option OutFile → Option OutputState
write_to buf st none = none
write_to buf st (some f) =
    some (record st { outf = some (record f { content = f.content ++ buf }) })

unfoldable pub write : List ℕ → OutputState → Option OutputState
write buf st = write_to buf st st.outf

-- What the loop does with the part of the buffer that is not consumed, for `fuel` rounds.
unfoldable pub output_bytes : ℕ → OutputState → List ℕ → Option Outcome
output_bytes fuel st [] = some (done st)
output_bytes zero st (b ∷ buf) = none
output_bytes (suc fuel) st (b ∷ buf) = elim (open_output st) [
  | exhausted st' ↦ some (exhausted st')
  | done st' ↦
      let wlen = min (st'.boundary - st'.count) (length (b ∷ buf)) in
      write (take wlen (b ∷ buf)) st' >>= λ st''.
      incr_output wlen st'' >>= λ st'''. output_bytes fuel st''' (drop wlen (b ∷ buf))
]

-- The loop of `split_by_bytes`; a read is the bytes that it returns. With a boundary that is not 0, a round
-- consumes a byte at least.
unfoldable pub output_reads : OutputState → List (List ℕ) → Option Outcome
output_reads st [] = some (done st)
output_reads st (buf ∷ reads) = output_bytes (length buf) st buf >>= λ o. elim o [
  | exhausted st' ↦ some (exhausted st')
  | done st' ↦ output_reads st' reads
]

-- The loop of `split_by_lines`, on the lines with their newlines.
unfoldable pub output_lines : OutputState → List Str → Option Outcome
output_lines st [] = some (done st)
output_lines st (line ∷ lines) = elim (open_output st) [
  | exhausted st' ↦ some (exhausted st')
  | done st' ↦ write line st' >>= λ st''. incr_output 1 st'' >>= λ st'''. output_lines st''' lines
]

-- ===== src/Text/Comm.antt =====
-- text/comm.rs: `line_out`, `comm_file`, `args_mask` and the choice of the lead in `main`.
pub mod Merging
pub mod Printing
mod Tests
use posixutils_rs.Std.Strings.{str_lt}
use posixutils_rs.Prelude.{
  ℕ, zero, suc, ◌+◌, List, [], ◌∷◌, ◌++◌, Bool, true, false, ◌&&◌, ◌||◌, ltb, ◌==◌, bit_and, bit_or,
  not, if◌then◌else◌, Option, none, some, ◌>>=◌, length,
}

-- A `String` is the list of its bytes.
abbrev pub Line : Type 0
Line = List ℕ

abbrev pub no1 : ℕ
no1 = 1

abbrev pub no2 : ℕ
no2 = 2

abbrev pub nodup : ℕ
nodup = 4

abbrev pub tab : ℕ
tab = 9

-- `line_out`: what is written; `none` is `panic!`.
pub line_out : Line → ℕ → ℕ → Line → Option Line
line_out lead_dup outmask curtype s =
    if not (bit_and outmask curtype == 0)
    then some []
    else if curtype == no1
    then some s
    else if curtype == no2
    then some ((if not (bit_and outmask no1 == 0) then [] else tab ∷ []) ++ s)
    else if curtype == nodup
    then some (lead_dup ++ s)
    else none

abbrev pub is_empty : Line → Bool
is_empty [] = true
is_empty (x ∷ xs) = false

-- The reader, the buffer and the flag of one file; a reader is the lines that it has still to give, each
-- with its newline.
pub record Side : Type 0 where
  pub rdr : List Line
  pub buf : Line
  pub want : Bool

-- `read_line(&mut buf)? == 0`
abbrev pub read_line : Side → Side
read_line s = elim s.rdr [
  | [] ↦ record s { want = false }
  | l ∷ ls ↦ record s { rdr = ls; buf = s.buf ++ l }
]

pub fetch : Side → Side
fetch s = if s.want && is_empty s.buf then read_line s else s

-- `buf.clear()`
abbrev pub clear : Side → Side
clear s = record s { buf = [] }

-- The calls of `line_out`: the type and the line.
abbrev pub Calls : Type 0
Calls = List (ℕ × Line)

abbrev pub call : ℕ → Line → Option Calls → Option Calls
call curtype s rest = do cs ← rest; some ((curtype, s) ∷ cs)

-- A round of the `loop` behind the reads.
pub on_buffers : (Side → Side → Option Calls) → Side → Side → Option Calls
on_buffers next s1 s2 =
    if is_empty s1.buf && is_empty s2.buf
    then some []
    else if is_empty s1.buf
    then call no2 s2.buf (next s1 (clear s2))
    else if is_empty s2.buf
    then call no1 s1.buf (next (clear s1) s2)
    else if str_lt s1.buf s2.buf
    then call no1 s1.buf (next (clear s1) s2)
    else if str_lt s2.buf s1.buf
    then call no2 s2.buf (next s1 (clear s2))
    else call nodup s1.buf (next (clear s1) (clear s2))

-- `none` is fuel that ran out.
pub comm_loop : ℕ → Side → Side → Option Calls
comm_loop zero s1 s2 = none
comm_loop (suc fuel) s1 s2 = on_buffers (λ t1 t2. comm_loop fuel t1 t2) (fetch s1) (fetch s2)

abbrev pub open_file : List Line → Side
open_file lines = record { rdr = lines; buf = []; want = true }

-- The output of the calls, one after another.
pub line_outs : Line → ℕ → Calls → Option Line
line_outs lead_dup mask [] = some []
line_outs lead_dup mask ((t, s) ∷ cs) = do
  x ← line_out lead_dup mask t s
  rest ← line_outs lead_dup mask cs
  some (x ++ rest)

-- A round takes a line at least, so the rounds are enough.
pub comm_calls : List Line → List Line → Option Calls
comm_calls lines1 lines2 =
    comm_loop (suc (length lines1 + length lines2)) (open_file lines1) (open_file lines2)

pub comm_file : ℕ → Line → List Line → List Line → Option Line
comm_file mask lead_dup lines1 lines2 = do cs ← comm_calls lines1 lines2; line_outs lead_dup mask cs

-- `args_mask`, and the lead that `main` chooses.
pub args_mask : Bool → Bool → Bool → ℕ
args_mask a b c =
    let m1 = if a then bit_or 0 no1 else 0 in
    let m2 = if b then bit_or m1 no2 else m1 in if c then bit_or m2 nodup else m2

pub lead_of : Bool → Bool → Line
lead_of false false = tab ∷ tab ∷ []
lead_of false true = tab ∷ []
lead_of true false = tab ∷ []
lead_of true true = []

pub comm : Bool → Bool → Bool → List Line → List Line → Option Line
comm a b c = comm_file (args_mask a b c) (lead_of a b)

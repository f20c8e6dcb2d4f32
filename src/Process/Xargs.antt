-- ===== src/Process/Xargs.antt =====
-- process/xargs.rs: `ParseState` and `read_and_spawn`. A string is the list of its characters. The utility is
-- not run: what is modelled is the list of its invocations. `String::from_utf8_lossy` is an argument.
pub mod Parsing
pub mod Batches
pub mod Limits
pub mod Ending
pub mod Reading
pub mod Invocations
pub mod Endless
pub mod Nulls
pub mod Quoting
pub mod Spawning
mod Tests
use posixutils_rs.Prelude.{
  ℕ, zero, suc, ◌+◌, List, [], ◌∷◌, ◌++◌, Bool, true, false, not, ◌&&◌, ◌||◌, ltb, leb, ◌==◌,
  if◌then◌else◌, Option, none, some, ◌>>=◌, length, take,
}
use posixutils_rs.Std.Strings.{Str, str_eq}
use posixutils_rs.Std.Chars.{is_whitespace, len}

-- The options that are looked at.
pub record Args : Type 0 where
  pub maxnum : Option ℕ
  pub maxsize : Option ℕ
  pub eofstr : Str
  pub null_mode : Bool
  pub util : Str
  pub util_args : List Str

pub record ParseState : Type 0 where
  pub util_size : ℕ
  pub util_n_args : ℕ
  pub tmp_arg : Str
  pub in_arg : Bool
  pub in_quote : Bool
  pub in_escape : Bool
  pub quote_char : ℕ
  pub skip_remainder : Bool
  pub null_slop : List ℕ
  pub max_bytes : ℕ
  pub max_args : Option ℕ
  pub args : List Str

abbrev pub is_nil {ℓ} : {A : Type ℓ} → List A → Bool
is_nil [] = true
is_nil (_ ∷ _) = false

-- The size of a command line of `total` bytes with more arguments, each behind a space.
unfoldable pub add_sizes : ℕ → List Str → ℕ
add_sizes total [] = total
add_sizes total (arg ∷ args) = add_sizes (total + len arg + 1) args

abbrev pub or_default : Option ℕ → ℕ → ℕ
or_default none d = d
or_default (some n) d = n

-- `MAX_ARGS_BYTES` is 131072 - 2048.
abbrev pub new : Args → ParseState
new args = record {
  util_size = add_sizes (len args.util) args.util_args;
  util_n_args = length args.util_args;
  tmp_arg = [];
  in_arg = false;
  in_quote = false;
  in_escape = false;
  quote_char = b'"';
  skip_remainder = false;
  null_slop = [];
  max_bytes = or_default args.maxsize 129024;
  max_args = args.maxnum;
  args = [];
}

abbrev pub reaches : Option ℕ → ℕ → Bool
reaches none n = false
reaches (some max_args) n = leb max_args n

unfoldable pub full : ParseState → Bool
full st =
    if ltb st.max_bytes (add_sizes st.util_size st.args)
    then true
    else reaches st.max_args (st.util_n_args + length st.args)

-- The arguments that are removed and those that stay.
pub record Split : Type 0 where
  pub removed : List Str
  pub left : List Str

abbrev pub is_max : Option ℕ → ℕ → Bool
is_max none n = false
is_max (some max_args) n = n == max_args

-- The loop of `remove_args`, from the size `total` and with `n` arguments on the command line.
unfoldable pub remove_from : ℕ → Option ℕ → ℕ → ℕ → List Str → Split
remove_from max_bytes max_args total n [] = record { removed = []; left = [] }
remove_from max_bytes max_args total n (arg ∷ args) =
    let rest = remove_from max_bytes max_args (total + len arg + 1) (n + 1) args in
    if ltb max_bytes (total + len arg + 1)
    then record { removed = []; left = arg ∷ args }
    else if is_max max_args (n + 1)
    then record { removed = arg ∷ []; left = args }
    else record { removed = arg ∷ rest.removed; left = rest.left }

unfoldable pub remove_args : ParseState → Split
remove_args st = remove_from st.max_bytes st.max_args st.util_size st.util_n_args st.args

abbrev pub with_args : List Str → ParseState → ParseState
with_args args st = record st { args = args }

-- `self.args.push(self.tmp_arg.clone()); self.tmp_arg.clear()`, behind `self.in_arg = false`.
abbrev pub push_arg : ParseState → ParseState
push_arg st = record st { in_arg = false; tmp_arg = []; args = st.args ++ st.tmp_arg ∷ [] }

abbrev pub push_char : ℕ → ParseState → ParseState
push_char ch st = record st { tmp_arg = st.tmp_arg ++ ch ∷ [] }

-- The body of the loop of `parse_buf`.
unfoldable pub parse_char : ParseState → ℕ → ParseState
parse_char st ch =
    if st.in_quote
    then if ch == st.quote_char then record (push_arg st) { in_quote = false } else push_char ch st
    else if st.in_escape
    then record (push_char ch st) { in_escape = false }
    else if st.in_arg && is_whitespace ch
    then push_arg st
    else if ch == b'\'' || ch == b'"'
    then record st { in_arg = true; in_quote = true; quote_char = ch }
    else if ch == b'\\'
    then record st { in_escape = true }
    else if is_whitespace ch
    then st
    else record (push_char ch st) { in_arg = true }

unfoldable pub parse_chars : ParseState → List ℕ → ParseState
parse_chars st [] = st
parse_chars st (ch ∷ buf) = parse_chars (parse_char st ch) buf

unfoldable pub parse_buf : ParseState → List ℕ → ParseState
parse_buf st buf = if st.skip_remainder then st else parse_chars st buf

-- The strings before each null byte, and what is behind the last one; `part` has been read of the first.
unfoldable pub cut_nulls : List ℕ → List ℕ → List (List ℕ)
cut_nulls part [] = part ∷ []
cut_nulls part (b ∷ buf) =
    let more = cut_nulls [] buf in
    let same = cut_nulls (part ++ b ∷ []) buf in if b == 0 then part ∷ more else same

module _ (from_utf8_lossy : List ℕ → Str) where
  -- The last part is kept, the others are arguments.
  unfoldable pub push_parts : ParseState → List (List ℕ) → ParseState
  push_parts st [] = st
  push_parts st (part ∷ []) = record st { null_slop = part }
  push_parts st (part ∷ part' ∷ parts) =
      push_parts (record st { args = st.args ++ from_utf8_lossy part ∷ [] }) (part' ∷ parts)

  unfoldable pub parse_buf_null : ParseState → List ℕ → ParseState
  parse_buf_null st in_buf =
      if st.skip_remainder then st else push_parts st (cut_nulls [] (st.null_slop ++ in_buf))

  abbrev pub finalize_slop : ParseState → ParseState
  finalize_slop st =
      if is_nil st.null_slop
      then st
      else record st { args = st.args ++ from_utf8_lossy st.null_slop ∷ []; null_slop = [] }

  unfoldable pub parse_finalize : ParseState → ParseState
  parse_finalize st = finalize_slop (if st.in_arg then push_arg st else st)

-- The arguments before the first that is `needle`, if there is one.
unfoldable pub before_str : Str → List Str → Option (List Str)
before_str needle [] = none
before_str needle (s ∷ haystack) =
    let rest = before_str needle haystack in
    if str_eq s needle then some [] else rest >>= λ r. some (s ∷ r)

abbrev pub truncated : ParseState → Option (List Str) → ParseState
truncated st none = st
truncated st (some args) = record st { args = args; skip_remainder = true }

unfoldable pub postprocess : Args → ParseState → ParseState
postprocess args st =
    if is_nil args.eofstr then st else truncated st (before_str args.eofstr st.args)

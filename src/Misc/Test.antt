-- ===== src/Misc/Test.antt =====
-- misc/test.rs: the operators of `test`.
pub mod Main
pub mod Integers
pub mod Panics
pub mod Negation
pub mod Paths
mod Tests
use posixutils_rs.Prelude.{
  ℕ, ◌-◌, ◌^◌, List, [], ◌∷◌, Bool, true, false, not, ◌&&◌, ltb, bit_and, ◌==◌, Option, none, some,
  if◌then◌else◌,
}
use posixutils_rs.Std.Strings.{Str, codes, str_eq, str_lt, match_str}
use posixutils_rs.Std.Integers.{ℤ, pos, negsuc, lt_ℤ, eq_ℤ}
use posixutils_rs.Std.Numerals.{parse_i64, parse_u32}

pub data UnaryOp : Type 0 where
  block char directory exists file sgid symlink str_non_zero fifo : UnaryOp
  readable socket size_non_zero terminal suid writable executable str_zero : UnaryOp

pub data BinOp : Type 0 where
  path_equals path_newer path_older : BinOp
  str_eq_op str_ne_op str_lt_op str_gt_op : BinOp
  int_eq int_ne int_lt int_gt int_ge int_le : BinOp

pub data FileType : Type 0 where
  block_device char_device dir regular symbolic_link socket_file pipe : FileType

-- What `metadata` of std gives for a path, links followed.
pub record Metadata : Type 0 where
  pub file_type : FileType
  pub mode : ℕ
  pub len : ℕ
  pub dev : ℕ
  pub ino : ℕ
  pub modified : ℕ

-- The system calls: `none` is an error of `metadata`; a file descriptor is an `i32`.
pub record System : Type 0 where
  pub metadata : Str → Option Metadata
  pub isatty : ℤ → Bool

pub data Message : Type 0 where
  unknown_operator : Str → Message
  missing_closing_bracket invalid_number_of_arguments : Message

-- The value of a test, with what was written to standard error; `panicked` is `unreachable!()`.
pub data Evaluation : Type 0 where
  evaluated : Option Message → Bool → Evaluation
  panicked : Evaluation

abbrev pub quiet : Bool → Evaluation
quiet b = evaluated none b

abbrev pub unary_ops : List (Str × UnaryOp)
unary_ops =
    (codes "-b", block)
    ∷ (codes "-c", char)
    ∷ (codes "-d", directory)
    ∷ (codes "-e", exists)
    ∷ (codes "-f", file)
    ∷ (codes "-g", sgid)
    ∷ (codes "-h", symlink)
    ∷ (codes "-L", symlink)
    ∷ (codes "-n", str_non_zero)
    ∷ (codes "-p", fifo)
    ∷ (codes "-r", readable)
    ∷ (codes "-S", socket)
    ∷ (codes "-s", size_non_zero)
    ∷ (codes "-t", terminal)
    ∷ (codes "-u", suid)
    ∷ (codes "-w", writable)
    ∷ (codes "-x", executable)
    ∷ (codes "-z", str_zero)
    ∷ []

unfoldable pub parse_unary_op : Str → Option UnaryOp
parse_unary_op s = match_str unary_ops s

abbrev pub want_metadata : UnaryOp → Bool
want_metadata terminal = false
want_metadata str_non_zero = false
want_metadata str_zero = false
want_metadata _ = true

abbrev pub eval_str : Str → Bool
eval_str [] = false
eval_str (_ ∷ _) = true

abbrev pub eval_unary_str : UnaryOp → Str → Evaluation
eval_unary_str str_non_zero s = quiet (eval_str s)
eval_unary_str str_zero s = quiet (not (eval_str s))
eval_unary_str _ s = panicked

abbrev pub is_type : FileType → FileType → Bool
is_type block_device block_device = true
is_type char_device char_device = true
is_type dir dir = true
is_type regular regular = true
is_type symbolic_link symbolic_link = true
is_type socket_file socket_file = true
is_type pipe pipe = true
is_type _ _ = false

-- `mode() & mask != 0`
abbrev pub has_bit : ℕ → Metadata → Bool
has_bit mask md = not (bit_and md.mode mask == 0)

-- `readonly()` of std: no write permission is set.
abbrev pub readonly : Metadata → Bool
readonly md = bit_and md.mode 0x92 == 0

abbrev pub eval_metadata : UnaryOp → Metadata → Evaluation
eval_metadata block md = quiet (is_type md.file_type block_device)
eval_metadata char md = quiet (is_type md.file_type char_device)
eval_metadata directory md = quiet (is_type md.file_type dir)
eval_metadata exists md = quiet true
eval_metadata file md = quiet (is_type md.file_type regular)
eval_metadata sgid md = quiet (has_bit 0x400 md)
eval_metadata symlink md = quiet (is_type md.file_type symbolic_link)
eval_metadata readable md = quiet (readonly md)
eval_metadata socket md = quiet (is_type md.file_type socket_file)
eval_metadata size_non_zero md = quiet (ltb 0 md.len)
eval_metadata suid md = quiet (has_bit 0x800 md)
eval_metadata writable md = quiet (has_bit 0x80 md)
eval_metadata executable md = quiet (has_bit 0x40 md)
eval_metadata _ md = panicked

abbrev pub with_metadata : UnaryOp → Option Metadata → Evaluation
with_metadata op none = quiet false
with_metadata op (some md) = eval_metadata op md

-- `fd as i32`
abbrev pub as_i32 : ℕ → ℤ
as_i32 n = if ltb n (2 ^ 31) then pos n else negsuc (2 ^ 32 - 1 - n)

abbrev pub zero_if_none : Option ℤ → ℤ
zero_if_none none = pos 0
zero_if_none (some z) = z

abbrev pub compare_ints : BinOp → ℤ → ℤ → Evaluation
compare_ints int_eq i1 i2 = quiet (eq_ℤ i1 i2)
compare_ints int_ne i1 i2 = quiet (not (eq_ℤ i1 i2))
compare_ints int_lt i1 i2 = quiet (lt_ℤ i1 i2)
compare_ints int_gt i1 i2 = quiet (lt_ℤ i2 i1)
compare_ints int_ge i1 i2 = quiet (not (lt_ℤ i1 i2))
compare_ints int_le i1 i2 = quiet (not (lt_ℤ i2 i1))
compare_ints _ i1 i2 = panicked

unfoldable pub eval_binary_int : BinOp → Str → Str → Evaluation
eval_binary_int op s1 s2 =
    compare_ints op (zero_if_none (parse_i64 s1)) (zero_if_none (parse_i64 s2))

unfoldable pub eval_binary_str : BinOp → Str → Str → Evaluation
eval_binary_str str_eq_op s1 s2 = quiet (str_eq s1 s2)
eval_binary_str str_ne_op s1 s2 = quiet (not (str_eq s1 s2))
eval_binary_str str_lt_op s1 s2 = quiet (str_lt s1 s2)
eval_binary_str str_gt_op s1 s2 = quiet (str_lt s2 s1)
eval_binary_str _ s1 s2 = panicked

-- The two results of `metadata`.
abbrev pub compare_paths : BinOp → Option Metadata → Option Metadata → Evaluation
compare_paths path_equals (some md1) (some md2) = quiet (md1.dev == md2.dev && md1.ino == md2.ino)
compare_paths path_equals _ _ = quiet false
compare_paths path_newer (some md1) none = quiet true
compare_paths path_newer (some md1) (some md2) = quiet (ltb md2.modified md1.modified)
compare_paths path_newer none _ = quiet false
compare_paths path_older none (some md2) = quiet true
compare_paths path_older (some md1) (some md2) = quiet (ltb md1.modified md2.modified)
compare_paths path_older _ none = quiet false
compare_paths _ _ _ = panicked

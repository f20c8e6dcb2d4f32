-- ===== src/Misc/Test/Main.antt =====
-- misc/test.rs: the dispatch on the operators, and `main`.
use posixutils_rs.Prelude.{ℕ, List, [], ◌∷◌, Bool, false, not, Option, none, some, if◌then◌else◌}
use posixutils_rs.Std.Strings.{Str, codes, str_eq, match_str}
use posixutils_rs.Std.Numerals.{parse_u32}
use posixutils_rs.Misc.Test.{
  UnaryOp, terminal, BinOp, path_equals, path_newer, path_older, str_eq_op, str_ne_op, str_lt_op,
  str_gt_op, int_eq, int_ne, int_lt, int_gt, int_ge, int_le, System, Message, unknown_operator,
  missing_closing_bracket, invalid_number_of_arguments, Evaluation, evaluated, panicked, quiet,
  parse_unary_op, want_metadata, eval_str, eval_unary_str, with_metadata, as_i32, eval_binary_int,
  eval_binary_str, compare_paths,
}

abbrev pub binary_ops : List (Str × BinOp)
binary_ops =
    (codes "-ef", path_equals)
    ∷ (codes "-nt", path_newer)
    ∷ (codes "-ot", path_older)
    ∷ (codes "=", str_eq_op)
    ∷ (codes "!=", str_ne_op)
    ∷ (codes "<", str_lt_op)
    ∷ (codes ">", str_gt_op)
    ∷ (codes "-eq", int_eq)
    ∷ (codes "-ne", int_ne)
    ∷ (codes "-lt", int_lt)
    ∷ (codes "-gt", int_gt)
    ∷ (codes "-ge", int_ge)
    ∷ (codes "-le", int_le)
    ∷ []

unfoldable pub parse_binary_op : Str → Option BinOp
parse_binary_op s = match_str binary_ops s

abbrev pub negated : Evaluation → Evaluation
negated (evaluated message b) = evaluated message (not b)
negated panicked = panicked

abbrev pub is_bang : Str → Bool
is_bang s = str_eq s (codes "!")

-- `args.last() == "]"`, and `args.pop()`.
abbrev pub ends_with_bracket : List Str → Bool
ends_with_bracket [] = false
ends_with_bracket (arg ∷ []) = str_eq arg (codes "]")
ends_with_bracket (_ ∷ arg ∷ args) = ends_with_bracket (arg ∷ args)

abbrev pub pop : List Str → List Str
pop [] = []
pop (arg ∷ []) = []
pop (arg ∷ arg' ∷ args) = arg ∷ pop (arg' ∷ args)

-- The exit status, with the message if there is one.
pub data Exit : Type 0 where
  exit : Option Message → ℕ → Exit
  panic : Exit

abbrev pub exit_code : Evaluation → Exit
exit_code (evaluated message b) = exit message (if b then 0 else 1)
exit_code panicked = panic

module _ (system : System) where
  unfoldable pub eval_unary_path : UnaryOp → Str → Evaluation
  eval_unary_path op s = with_metadata op (system.metadata s)

  abbrev pub is_terminal : Option ℕ → Bool
  is_terminal none = false
  is_terminal (some fd) = system.isatty (as_i32 fd)

  unfoldable pub eval_terminal : Str → Bool
  eval_terminal s = is_terminal (parse_u32 s)

  abbrev pub apply_unary : UnaryOp → Str → Evaluation
  apply_unary terminal s = quiet (eval_terminal s)
  apply_unary op s = if want_metadata op then eval_unary_path op s else eval_unary_str op s

  abbrev pub parsed_unary : Option UnaryOp → Str → Str → Evaluation
  parsed_unary none op_str s = evaluated (some (unknown_operator op_str)) false
  parsed_unary (some op) op_str s = apply_unary op s

  unfoldable pub eval_unary : Str → Str → Evaluation
  eval_unary op_str s = parsed_unary (parse_unary_op op_str) op_str s

  unfoldable pub eval_binary_path : BinOp → Str → Str → Evaluation
  eval_binary_path op s1 s2 = compare_paths op (system.metadata s1) (system.metadata s2)

  abbrev pub apply_binary : BinOp → Str → Str → Evaluation
  apply_binary path_equals s1 s2 = eval_binary_path path_equals s1 s2
  apply_binary path_newer s1 s2 = eval_binary_path path_newer s1 s2
  apply_binary path_older s1 s2 = eval_binary_path path_older s1 s2
  apply_binary str_eq_op s1 s2 = eval_binary_str str_eq_op s1 s2
  apply_binary str_ne_op s1 s2 = eval_binary_str str_ne_op s1 s2
  apply_binary str_lt_op s1 s2 = eval_binary_str str_lt_op s1 s2
  apply_binary str_gt_op s1 s2 = eval_binary_str str_gt_op s1 s2
  apply_binary op s1 s2 = eval_binary_int op s1 s2

  abbrev pub parsed_binary : Option BinOp → Str → Str → Str → Evaluation
  parsed_binary none s1 op_str s2 = evaluated (some (unknown_operator op_str)) false
  parsed_binary (some op) s1 op_str s2 = apply_binary op s1 s2

  unfoldable pub eval_binary : Str → Str → Str → Evaluation
  eval_binary s1 op_str s2 = parsed_binary (parse_binary_op op_str) s1 op_str s2

  -- The `match` on the number of arguments, behind the name of the program.
  unfoldable pub dispatch : List Str → Evaluation
  dispatch [] = quiet false
  dispatch (arg1 ∷ []) = quiet (eval_str arg1)
  dispatch (arg1 ∷ arg2 ∷ []) =
      if is_bang arg1 then quiet (not (eval_str arg2)) else eval_unary arg1 arg2
  dispatch (arg1 ∷ arg2 ∷ arg3 ∷ []) =
      if is_bang arg1 then negated (eval_unary arg2 arg3) else eval_binary arg1 arg2 arg3
  dispatch (arg1 ∷ arg2 ∷ arg3 ∷ arg4 ∷ []) =
      if is_bang arg1
      then negated (eval_binary arg2 arg3 arg4)
      else evaluated (some invalid_number_of_arguments) false
  dispatch _ = evaluated (some invalid_number_of_arguments) false

  -- Without the name of the program there is nothing to index: `args[0]` panics.
  unfoldable pub run : List Str → Exit
  run [] = panic
  run (name ∷ args) =
      if str_eq name (codes "[")
      then if ends_with_bracket (name ∷ args)
        then exit_code (dispatch (pop args))
        else exit (some missing_closing_bracket) 1
      else exit_code (dispatch args)

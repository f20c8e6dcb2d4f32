-- ===== src/Misc/Test/Panics.antt =====
-- Where `test` reaches its `unreachable!()`.
use posixutils_rs.Prelude.{◌≡◌, ◌≢◌, refl, Bool, true, false, Option, none, some, All, ◌↔◌}
use posixutils_rs.Std.Strings.{Str, codes, match_str, match_str-All, str_eq}
use posixutils_rs.Misc.Test
use posixutils_rs.Misc.Test.{
  UnaryOp, BinOp, Metadata, System, Evaluation, evaluated, panicked, quiet, fifo, with_metadata,
  want_metadata, compare_paths, compare_ints, eval_binary_int, eval_binary_str, unary_ops,
  parse_unary_op,
}
use posixutils_rs.Misc.Test.Main.{
  apply_unary, parsed_unary, eval_unary, eval_unary_path, apply_binary, parsed_binary, eval_binary,
  eval_binary_path, parse_binary_op,
}

abbrev is_fifo : UnaryOp → Bool
is_fifo fifo = true
is_fifo _ = false

with_metadata-panicked :
    (op : UnaryOp) (o : Option Metadata)
    → want_metadata op ≡ true
    → with_metadata op o ≡ panicked
    → (is_fifo op ≡ true) × ((md : Metadata) × (o ≡ some md))
with_metadata-panicked op none w e = cc
with_metadata-panicked fifo (some md) w e = (refl, (md, refl))
with_metadata-panicked _ (some md) w e = cc

FifoWord : (w : Str) (op : UnaryOp) → Type 0
FifoWord w op = is_fifo op ≡ true → w ≡ codes "-p"

never : {w : Str} → false ≡ true → w ≡ codes "-p"
never e = cc

unary_ops-FifoWord : All (λ arm. FifoWord arm.0 arm.1) unary_ops
unfolding FifoWord
unary_ops-FifoWord = (
  never,
  (
    never,
    (
      never,
      (
        never,
        (
          never,
          (
            never,
            (
              never,
              (
                never,
                (
                  never,
                  (
                    λ _. refl,
                    (never, (never, (never, (never, (never, (never, (never, (never, tt)))))))),
                  ),
                ),
              ),
            ),
          ),
        ),
      ),
    ),
  ),
)

fifo-word :
    (s : Str) (op : UnaryOp) → parse_unary_op s ≡ some op → is_fifo op ≡ true → s ≡ codes "-p"
unfolding parse_unary_op FifoWord
fifo-word s op = match_str-All FifoWord unary_ops s op unary_ops-FifoWord

equals-returns : (o1 o2 : Option Metadata) → compare_paths Test.path_equals o1 o2 ≢ panicked
equals-returns none o2 = λ e. cc
equals-returns (some _) none = λ e. cc
equals-returns (some _) (some _) = λ e. cc

newer-returns : (o1 o2 : Option Metadata) → compare_paths Test.path_newer o1 o2 ≢ panicked
newer-returns none o2 = λ e. cc
newer-returns (some _) none = λ e. cc
newer-returns (some _) (some _) = λ e. cc

older-returns : (o1 o2 : Option Metadata) → compare_paths Test.path_older o1 o2 ≢ panicked
older-returns none none = λ e. cc
older-returns none (some _) = λ e. cc
older-returns (some _) none = λ e. cc
older-returns (some _) (some _) = λ e. cc

module _ (system : System) where
  apply_unary-panicked :
      (op : UnaryOp) (s : Str)
      → apply_unary system op s ≡ panicked
      → (is_fifo op ≡ true) × ((md : Metadata) × (system.metadata s ≡ some md))
  unfolding eval_unary_path
  apply_unary-panicked Test.terminal s e = cc
  apply_unary-panicked Test.str_non_zero s e = cc
  apply_unary-panicked Test.str_zero s e = cc
  apply_unary-panicked op s e = with_metadata-panicked op (system.metadata s) refl e

  parsed_unary-panicked :
      (o : Option UnaryOp) (op_str s : Str)
      → ((op : UnaryOp) → o ≡ some op → is_fifo op ≡ true → op_str ≡ codes "-p")
      → parsed_unary system o op_str s ≡ panicked
      → (op_str ≡ codes "-p") × ((md : Metadata) × (system.metadata s ≡ some md))
  parsed_unary-panicked none op_str s h e = cc
  parsed_unary-panicked (some op) op_str s h e =
      let (f, m) = apply_unary-panicked op s e in (h op refl f, m)

  fifo-panics :
      (s : Str) (md : Metadata)
      → system.metadata s ≡ some md
      → eval_unary system (codes "-p") s ≡ panicked
  unfolding eval_unary parse_unary_op match_str str_eq eval_unary_path
  fifo-panics s md e = rw e refl

  apply_binary-returns : (op : BinOp) (s1 s2 : Str) → apply_binary system op s1 s2 ≢ panicked
  unfolding eval_binary_int eval_binary_str eval_binary_path
  apply_binary-returns Test.path_equals s1 s2 =
      equals-returns (system.metadata s1) (system.metadata s2)
  apply_binary-returns Test.path_newer s1 s2 =
      newer-returns (system.metadata s1) (system.metadata s2)
  apply_binary-returns Test.path_older s1 s2 =
      older-returns (system.metadata s1) (system.metadata s2)
  apply_binary-returns _ s1 s2 = λ e. cc

  parsed_binary-returns :
      (o : Option BinOp) (s1 op_str s2 : Str) → parsed_binary system o s1 op_str s2 ≢ panicked
  parsed_binary-returns none s1 op_str s2 = λ e. cc
  parsed_binary-returns (some op) s1 op_str s2 = apply_binary-returns op s1 s2

  -- A test with one operator panics exactly where the operator is `-p` and the file exists; a test with an operator between two
  -- operands never panics.
  pub test-panicked :
      (s1 op_str s : Str)
      → ((eval_unary system op_str s ≡ panicked)
          ↔ ((op_str ≡ codes "-p") × ((md : Metadata) × (system.metadata s ≡ some md))))
        × (eval_binary system s1 op_str s ≢ panicked)
  unfolding eval_unary eval_binary
  test-panicked s1 op_str s = (
    (
      parsed_unary-panicked (parse_unary_op op_str) op_str s (fifo-word op_str),
      λ (e, (md, m)). rw e (fifo-panics s md m),
    ),
    parsed_binary-returns (parse_binary_op op_str) s1 op_str s,
  )

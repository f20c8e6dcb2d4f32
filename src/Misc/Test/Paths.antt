-- ===== src/Misc/Test/Paths.antt =====
-- `test` on two paths.
use posixutils_rs.Prelude.{◌≡◌, refl, ap, ◌⊎◌, inl, inr, Option, none, some, arith, false}
use posixutils_rs.Std.Strings.{Str, codes, match_str, str_eq}
use posixutils_rs.Misc.Test.{
  Metadata, System, quiet, compare_paths, path_newer, path_older, path_equals,
}
use posixutils_rs.Misc.Test.Main.{eval_binary, parse_binary_op, eval_binary_path}

newer-older :
    (o1 o2 : Option Metadata) → compare_paths path_newer o1 o2 ≡ compare_paths path_older o2 o1
newer-older none none = refl
newer-older none (some md2) = refl
newer-older (some md1) none = refl
newer-older (some md1) (some md2) = refl

equals_comm :
    (o1 o2 : Option Metadata) → compare_paths path_equals o1 o2 ≡ compare_paths path_equals o2 o1
equals_comm none none = refl
equals_comm none (some md2) = refl
equals_comm (some md1) none = refl
equals_comm (some md1) (some md2) = ap quiet (ground arith)

not_both :
    (o1 o2 : Option Metadata)
    → (compare_paths path_newer o1 o2 ≡ quiet false)
      ⊎ (compare_paths path_older o1 o2 ≡ quiet false)
not_both none o2 = inl refl
not_both (some md1) none = inr refl
not_both (some md1) (some md2) = ground arith

-- For every file system and two paths: `a -nt b` is `b -ot a`, where a file that does not exist is older than one
-- that does; no path is both newer and older than the other; and `-ef` does not depend on the order of the paths.
pub eval_binary-paths :
    (system : System) (a b : Str)
    → (eval_binary system a (codes "-nt") b ≡ eval_binary system b (codes "-ot") a)
      × ((eval_binary system a (codes "-nt") b ≡ quiet false)
          ⊎ (eval_binary system a (codes "-ot") b ≡ quiet false))
      × (eval_binary system a (codes "-ef") b ≡ eval_binary system b (codes "-ef") a)
unfolding eval_binary parse_binary_op match_str str_eq eval_binary_path
eval_binary-paths system a b = (
  newer-older (system.metadata a) (system.metadata b),
  not_both (system.metadata a) (system.metadata b),
  equals_comm (system.metadata a) (system.metadata b),
)

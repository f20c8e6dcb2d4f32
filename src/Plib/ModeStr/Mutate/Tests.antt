-- ===== src/Plib/ModeStr/Mutate/Tests.antt =====
-- Mode strings and their theorems at concrete inputs.
use posixutils_rs.Prelude.{ℕ, ◌+◌, ◌*◌, ◌≡◌, ◌≢◌, refl, List, [], ◌∷◌, true}
use posixutils_rs.Prelude.Bits.{bit}
use posixutils_rs.Plib.ModeStr.{
  ChmodSymbolic, symbolic, absolute, ok, invalid_mode_string, stuck, parse, chars, turns, turn_in,
  wholist_turn, actionlist_turn, list_or_copy_turn, perm_copy_turn, perm_list_turn,
  next_clause_turn, finish, finish_action, default_action, default_clause,
}
use posixutils_rs.Std.Numerals.{from_str_radix_8, octal_number, octal_digits}
use posixutils_rs.Plib.ModeStr.Totality.{parse-ne-stuck}
use posixutils_rs.Plib.ModeStr.Mutate.{
  add_permissions, apply_action, apply_actions, apply_clause, apply_clauses, classes_of, mutate,
}
use posixutils_rs.Plib.ModeStr.Mutate.Keeping.{mutate_keeps}

-- "u=rwX,go=rX", the string of the repository's own test.
abbrev mode_string : List ℕ
mode_string = b'u' ∷ b'=' ∷ b'r' ∷ b'w' ∷ b'X' ∷ b',' ∷ b'g' ∷ b'o' ∷ b'=' ∷ b'r' ∷ b'X' ∷ []

abbrev parsed : ChmodSymbolic
parsed = record {
  clauses =
      record default_clause {
        user = true;
        actions =
            record default_action { read = true; write = true; execute_dir = true; dirty = true }
            ∷ [];
        dirty = true;
      }
      ∷ record default_clause {
        group = true;
        others = true;
        actions = record default_action { read = true; execute_dir = true; dirty = true } ∷ [];
        dirty = true;
      }
      ∷ [];
}

parse_test : parse mode_string ≡ ok (symbolic parsed)
unfolding parse chars turns turn_in wholist_turn actionlist_turn list_or_copy_turn perm_copy_turn
    perm_list_turn next_clause_turn finish finish_action from_str_radix_8 octal_number octal_digits
parse_test = refl

parse_octal : parse (b'7' ∷ b'5' ∷ b'5' ∷ []) ≡ ok (absolute (7 * 64 + 5 * 8 + 5))
unfolding parse from_str_radix_8 octal_number octal_digits
parse_octal = refl

parse_wrong : parse (b'u' ∷ b'=' ∷ b'q' ∷ []) ≡ invalid_mode_string
unfolding parse chars turns turn_in wholist_turn actionlist_turn list_or_copy_turn perm_copy_turn
    perm_list_turn next_clause_turn from_str_radix_8 octal_number octal_digits
parse_wrong = refl

mutate_test : mutate (6 * 64) parsed ≡ 7 * 64 + 5 * 8 + 5
unfolding mutate apply_clauses apply_clause apply_actions apply_action add_permissions classes_of
mutate_test = refl

parse-ne-stuck_example : parse mode_string ≢ stuck
parse-ne-stuck_example = parse-ne-stuck mode_string

-- 33261 is 0o100755.
mutate_keeps_example :
    (bit (mutate 33261 parsed) 10 ≡ bit 33261 10)
    × (bit (mutate 33261 parsed) 12 ≡ bit 33261 12)
    × (bit (mutate 33261 parsed) 13 ≡ bit 33261 13)
    × (bit (mutate 33261 parsed) 14 ≡ bit 33261 14)
    × (bit (mutate 33261 parsed) 15 ≡ bit 33261 15)
mutate_keeps_example = mutate_keeps 33261 parsed

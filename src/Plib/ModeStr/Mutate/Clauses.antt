-- ===== src/Plib/ModeStr/Mutate/Clauses.antt =====
-- What `parse` and `mutate` together make of some mode strings, at every mode.
use posixutils_rs.Prelude.{ℕ, ◌≡◌, refl, [], ◌∷◌, bit_and, bit_or}
use posixutils_rs.Prelude.Bits.{bit_or-zero}
use posixutils_rs.Plib.ModeStr.{
  ChmodSymbolic, symbolic, ok, parse, chars, turns, turn_in, wholist_turn, actionlist_turn,
  list_or_copy_turn, perm_copy_turn, perm_list_turn, next_clause_turn, finish, finish_action,
}
use posixutils_rs.Std.Numerals.{from_str_radix_8, octal_number, octal_digits}
use posixutils_rs.Plib.ModeStr.Mutate.{
  flip, bits_user, bits_group, add_permissions, apply_action, apply_actions, apply_clause,
  apply_clauses, classes_of, mutate,
}

-- `chmod g=u` takes every permission from the group of every mode, instead of those that the user lacks.
pub copied_class :
    (m : ℕ)
    → (s : ChmodSymbolic) × (parse (b'g' ∷ b'=' ∷ b'u' ∷ []) ≡ ok (symbolic s))
      × (mutate m s ≡ bit_and m (flip (bits_group 7)))
unfolding parse chars turns turn_in wholist_turn actionlist_turn list_or_copy_turn perm_copy_turn
    perm_list_turn next_clause_turn finish finish_action from_str_radix_8 octal_number octal_digits
    mutate apply_clauses apply_clause apply_actions apply_action add_permissions classes_of
copied_class m = (_, refl, bit_or-zero (bit_and m (flip (bits_group 7))))

-- In `chmod u=r,g+w` the first clause decides what the second begins with: the group of every mode ends
-- with read and write, whatever it had.
pub carried_classes :
    (m : ℕ)
    → (s : ChmodSymbolic) × (parse (b'u' ∷ b'=' ∷ b'r' ∷ b',' ∷ b'g' ∷ b'+' ∷ b'w' ∷ [])
        ≡ ok (symbolic s))
      × (mutate m s
          ≡ bit_or
              (bit_and
                (bit_or (bit_and m (flip (bits_user 7))) (bits_user 4))
                (flip (bits_group 7)))
              (bits_group 6))
unfolding parse chars turns turn_in wholist_turn actionlist_turn list_or_copy_turn perm_copy_turn
    perm_list_turn next_clause_turn finish finish_action from_str_radix_8 octal_number octal_digits
    mutate apply_clauses apply_clause apply_actions apply_action add_permissions classes_of
carried_classes m = (_, refl, refl)

-- ===== src/Plib/ModeStr/Mutate.antt =====
-- plib/src/modestr.rs: `mutate`. The bits are those that POSIX fixes for <sys/stat.h>.
pub mod Keeping
pub mod Clauses
mod Tests
use posixutils_rs.Prelude.{ℕ, ◌-◌, ◌*◌, ◌^◌, List, [], ◌∷◌, Bool, bit_and, bit_or, if◌then◌else◌}
use posixutils_rs.Plib.ModeStr.{
  ChmodActionOp, add, remove, set, ChmodAction, ChmodClause, ChmodSymbolic,
}

-- `S_IRUSR` and its kind, by the three digits of a mode.
abbrev pub bits_user : ℕ → ℕ
bits_user d = d * 64

abbrev pub bits_group : ℕ → ℕ
bits_group d = d * 8

abbrev pub s_isuid : ℕ
s_isuid = 2048

abbrev pub s_isvtx : ℕ
s_isvtx = 512

-- `!x` on `u32`
abbrev pub flip : ℕ → ℕ
flip x = 2 ^ 32 - 1 - x

-- `user`, `group` and `others`, which outlive a clause.
pub record Classes : Type 0 where
  pub user : ℕ
  pub group : ℕ
  pub others : ℕ

abbrev pub or_if : Bool → ℕ → ℕ → ℕ
or_if b mask x = if b then bit_or x mask else x

abbrev pub clear_if : Bool → ℕ → ℕ → ℕ
clear_if b mask x = if b then bit_and x (flip mask) else x

-- A permission for all three classes.
abbrev pub or_all : Bool → ℕ → Classes → Classes
or_all b d cs = record {
  user = or_if b (bits_user d) cs.user;
  group = or_if b (bits_group d) cs.group;
  others = or_if b d cs.others;
}

abbrev pub clear_all : Bool → ℕ → Classes → Classes
clear_all b d cs = record {
  user = clear_if b (bits_user d) cs.user;
  group = clear_if b (bits_group d) cs.group;
  others = clear_if b d cs.others;
}

-- The tests that `Add` and `Set` share, from `read` to `sticky`.
pub add_permissions : ChmodAction → Classes → Classes
add_permissions a cs =
    let x = or_all a.execute_dir 1 (or_all a.execute 1 (or_all a.write 2 (or_all a.read 4 cs))) in
    record x { user = or_if a.setuid s_isuid x.user; others = or_if a.sticky s_isvtx x.others }

pub remove_permissions : ChmodAction → Classes → Classes
remove_permissions a cs =
    let x =
      clear_all a.execute_dir 1
        (clear_all a.execute 1 (clear_all a.write 2 (clear_all a.read 4 cs))) in
    record x {
      user = clear_if a.setuid s_isuid x.user;
      others = clear_if a.sticky s_isvtx x.others;
    }

-- `match action.op`
pub apply_action : ℕ → ChmodActionOp → ChmodAction → Classes → Classes
apply_action cur_mode add a cs = add_permissions a (record {
  user = or_if a.copy_user (bit_and cur_mode (bits_user 7)) cs.user;
  group = or_if a.copy_group (bit_and cur_mode (bits_group 7)) cs.group;
  others = or_if a.copy_others (bit_and cur_mode 7) cs.others;
})
apply_action cur_mode remove a cs = remove_permissions a (record {
  user = clear_if a.copy_user (bit_and cur_mode (bits_user 7)) cs.user;
  group = clear_if a.copy_group (bit_and cur_mode (bits_group 7)) cs.group;
  others = clear_if a.copy_others (bit_and cur_mode 7) cs.others;
})
apply_action cur_mode set a cs = add_permissions a (record {
  user = if a.copy_user then bit_and cur_mode (bits_user 7) else 0;
  group = if a.copy_group then bit_and cur_mode (bits_group 7) else 0;
  others = if a.copy_others then bit_and cur_mode 7 else 0;
})

pub apply_actions : ℕ → List ChmodAction → Classes → Classes
apply_actions cur_mode [] cs = cs
apply_actions cur_mode (a ∷ rest) cs = apply_actions cur_mode rest (apply_action cur_mode a.op a cs)

-- `(new_mode & !mask) | class`, if the clause names the class.
abbrev pub put_class : Bool → ℕ → ℕ → ℕ → ℕ
put_class b mask class new_mode =
    if b then bit_or (bit_and new_mode (flip mask)) class else new_mode

pub apply_clause : ChmodClause → Classes → ℕ → ℕ
apply_clause clause cs new_mode = put_class clause.others 7 cs.others (
    put_class clause.group (bits_group 7) cs.group
      (put_class clause.user (bits_user 7) cs.user new_mode))

pub apply_clauses : ℕ → List ChmodClause → Classes → ℕ → ℕ
apply_clauses cur_mode [] cs new_mode = new_mode
apply_clauses cur_mode (clause ∷ clauses) cs new_mode =
    let cs' = apply_actions cur_mode clause.actions cs in
    apply_clauses cur_mode clauses cs' (apply_clause clause cs' new_mode)

pub classes_of : ℕ → Classes
classes_of cur_mode = record {
  user = bit_and cur_mode (bits_user 7);
  group = bit_and cur_mode (bits_group 7);
  others = bit_and cur_mode 7;
}

pub mutate : ℕ → ChmodSymbolic → ℕ
mutate cur_mode s = apply_clauses cur_mode s.clauses (classes_of cur_mode) cur_mode

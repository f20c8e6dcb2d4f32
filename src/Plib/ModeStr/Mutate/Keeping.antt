-- ===== src/Plib/ModeStr/Mutate/Keeping.antt =====
-- The bits of a mode that `mutate` keeps.
use posixutils_rs.Prelude.{
  ℕ, ◌≤◌, ◌≡◌, refl, List, [], ◌∷◌, Bool, true, false, arith, bit_and, if◌then◌else◌, ◌∙◌,
}
use posixutils_rs.Prelude.Bits.{bit, bit-le, bit-bit_and, bit-bit_or}
use posixutils_rs.Plib.ModeStr.{
  ChmodActionOp, add, remove, set, ChmodAction, ChmodClause, ChmodSymbolic,
}
use posixutils_rs.Plib.ModeStr.Mutate.{
  Classes, or_if, clear_if, flip, bits_user, bits_group, s_isuid, s_isvtx, or_all, clear_all,
  add_permissions, remove_permissions, apply_action, apply_actions, put_class, apply_clause,
  apply_clauses, classes_of, mutate,
}

-- Bit `i` is none of those that a mode string names.
record IsOutside (i : ℕ) : Type 0 where
  digits : (d : ℕ) → d ≤ 7 → (bit (bits_user d) i ≡ 0) × (bit (bits_group d) i ≡ 0) × (bit d i ≡ 0)
  special : (bit s_isuid i ≡ 0) × (bit s_isvtx i ≡ 0)
  kept : (bit (flip (bits_user 7)) i ≡ 1) × (bit (flip (bits_group 7)) i ≡ 1) × (bit (flip 7) i ≡ 1)

module _ (i : ℕ) (out : IsOutside i) where
  abbrev IsClear : Classes → Type 0
  IsClear cs = (bit cs.user i ≡ 0) × (bit cs.group i ≡ 0) × (bit cs.others i ≡ 0)

  or_if-clear : (b : Bool) (mask x : ℕ) → bit mask i ≡ 0 → bit x i ≡ 0 → bit (or_if b mask x) i ≡ 0
  or_if-clear true mask x m h = omega (arith, bit-bit_or x mask i)
  or_if-clear false mask x m h = h

  clear_if-clear : (b : Bool) (mask x : ℕ) → bit x i ≡ 0 → bit (clear_if b mask x) i ≡ 0
  clear_if-clear true mask x h = omega (arith, bit-bit_and x (flip mask) i)
  clear_if-clear false mask x h = h

  or_all-IsClear : (b : Bool) (d : ℕ) (cs : Classes) → d ≤ 7 → IsClear cs → IsClear (or_all b d cs)
  or_all-IsClear b d cs le h = (
    or_if-clear b (bits_user d) cs.user (out.digits d le).0 h.0,
    or_if-clear b (bits_group d) cs.group (out.digits d le).1 h.1,
    or_if-clear b d cs.others (out.digits d le).2 h.2,
  )

  clear_all-IsClear : (b : Bool) (d : ℕ) (cs : Classes) → IsClear cs → IsClear (clear_all b d cs)
  clear_all-IsClear b d cs h = (
    clear_if-clear b (bits_user d) cs.user h.0,
    clear_if-clear b (bits_group d) cs.group h.1,
    clear_if-clear b d cs.others h.2,
  )

  add_permissions-IsClear :
      (a : ChmodAction) (cs : Classes) → IsClear cs → IsClear (add_permissions a cs)
  unfolding add_permissions
  add_permissions-IsClear a cs h =
      let x = or_all-IsClear a.execute_dir 1 _ (omega arith) (
        or_all-IsClear a.execute 1 _ (omega arith) (
          or_all-IsClear a.write 2 _ (omega arith) (or_all-IsClear a.read 4 cs (omega arith) h))) in
      (
        or_if-clear a.setuid s_isuid _ out.special.0 x.0,
        x.1,
        or_if-clear a.sticky s_isvtx _ out.special.1 x.2,
      )

  remove_permissions-IsClear :
      (a : ChmodAction) (cs : Classes) → IsClear cs → IsClear (remove_permissions a cs)
  unfolding remove_permissions
  remove_permissions-IsClear a cs h =
      let x = clear_all-IsClear a.execute_dir 1 _ (
        clear_all-IsClear a.execute 1 _
          (clear_all-IsClear a.write 2 _ (clear_all-IsClear a.read 4 cs h))) in
      (clear_if-clear a.setuid s_isuid _ x.0, x.1, clear_if-clear a.sticky s_isvtx _ x.2)

  masked-clear : (x mask : ℕ) → bit mask i ≡ 0 → bit (bit_and x mask) i ≡ 0
  masked-clear x mask m = omega (arith, bit-bit_and x mask i)

  classes_of-IsClear : (m : ℕ) → IsClear (classes_of m)
  unfolding classes_of
  classes_of-IsClear m =
      let (u, g, o) = out.digits 7 (omega arith) in
      (masked-clear m (bits_user 7) u, masked-clear m (bits_group 7) g, masked-clear m 7 o)

  set_if-clear : (b : Bool) (x : ℕ) → bit x i ≡ 0 → bit (if b then x else 0) i ≡ 0
  set_if-clear true x h = h
  set_if-clear false x h = omega (arith, masked-clear 0 7 (out.digits 7 (omega arith)).2)

  apply_action-IsClear :
      (m : ℕ) (op : ChmodActionOp) (a : ChmodAction) (cs : Classes)
      → IsClear cs
      → IsClear (apply_action m op a cs)
  unfolding apply_action classes_of
  apply_action-IsClear m add a cs h =
      let c = classes_of-IsClear m in
      add_permissions-IsClear a _ (
        or_if-clear a.copy_user _ cs.user c.0 h.0,
        or_if-clear a.copy_group _ cs.group c.1 h.1,
        or_if-clear a.copy_others _ cs.others c.2 h.2,
      )
  apply_action-IsClear m remove a cs h = remove_permissions-IsClear a _ (
    clear_if-clear a.copy_user (bit_and m (bits_user 7)) cs.user h.0,
    clear_if-clear a.copy_group (bit_and m (bits_group 7)) cs.group h.1,
    clear_if-clear a.copy_others (bit_and m 7) cs.others h.2,
  )
  apply_action-IsClear m set a cs h =
      let c = classes_of-IsClear m in
      add_permissions-IsClear a _ (
        set_if-clear a.copy_user _ c.0,
        set_if-clear a.copy_group _ c.1,
        set_if-clear a.copy_others _ c.2,
      )

  apply_actions-IsClear :
      (m : ℕ) (l : List ChmodAction) (cs : Classes) → IsClear cs → IsClear (apply_actions m l cs)
  unfolding apply_actions
  apply_actions-IsClear m [] cs h = h
  apply_actions-IsClear m (a ∷ l) cs h =
      apply_actions-IsClear m l _ (apply_action-IsClear m a.op a cs h)

  put_class-keeps :
      (b : Bool) (mask class m : ℕ)
      → bit (flip mask) i ≡ 1
      → bit class i ≡ 0
      → bit (put_class b mask class m) i ≡ bit m i
  put_class-keeps true mask class m k c =
      omega
        (arith, bit-bit_or (bit_and m (flip mask)) class i, bit-bit_and m (flip mask) i, bit-le m i)
  put_class-keeps false mask class m k c = refl

  apply_clauses-keeps :
      (m : ℕ) (l : List ChmodClause) (cs : Classes) (new_mode : ℕ)
      → IsClear cs
      → bit (apply_clauses m l cs new_mode) i ≡ bit new_mode i
  unfolding apply_clauses apply_clause
  apply_clauses-keeps m [] cs n h = refl
  apply_clauses-keeps m (c ∷ l) cs n h =
      let k = apply_actions-IsClear m c.actions cs h in
      let (u, g, o) = out.kept in
      apply_clauses-keeps m l _ _ k
      ∙ put_class-keeps c.others 7 _ _ o k.2
      ∙ put_class-keeps c.group (bits_group 7) _ _ g k.1
      ∙ put_class-keeps c.user (bits_user 7) _ n u k.0

  mutate-outside : (m : ℕ) (s : ChmodSymbolic) → bit (mutate m s) i ≡ bit m i
  unfolding mutate
  mutate-outside m s = apply_clauses-keeps m s.clauses _ m (classes_of-IsClear m)

set_gid-IsOutside : IsOutside 10
set_gid-IsOutside = record {
  digits = λ d le. (omega arith, omega arith, omega arith);
  special = (refl, refl);
  kept = (refl, refl, refl);
}

type_12-IsOutside : IsOutside 12
type_12-IsOutside = record {
  digits = λ d le. (omega arith, omega arith, omega arith);
  special = (refl, refl);
  kept = (refl, refl, refl);
}

type_13-IsOutside : IsOutside 13
type_13-IsOutside = record {
  digits = λ d le. (omega arith, omega arith, omega arith);
  special = (refl, refl);
  kept = (refl, refl, refl);
}

type_14-IsOutside : IsOutside 14
type_14-IsOutside = record {
  digits = λ d le. (omega arith, omega arith, omega arith);
  special = (refl, refl);
  kept = (refl, refl, refl);
}

type_15-IsOutside : IsOutside 15
type_15-IsOutside = record {
  digits = λ d le. (omega arith, omega arith, omega arith);
  special = (refl, refl);
  kept = (refl, refl, refl);
}

-- For every mode and mode string, `mutate` leaves bit 10, the set-group-id bit, and bits 12 to 15, the type
-- of the file, as they are.
pub mutate_keeps :
    (m : ℕ) (s : ChmodSymbolic)
    → (bit (mutate m s) 10 ≡ bit m 10)
      × (bit (mutate m s) 12 ≡ bit m 12)
      × (bit (mutate m s) 13 ≡ bit m 13)
      × (bit (mutate m s) 14 ≡ bit m 14)
      × (bit (mutate m s) 15 ≡ bit m 15)
mutate_keeps m s = (
  mutate-outside 10 set_gid-IsOutside m s,
  mutate-outside 12 type_12-IsOutside m s,
  mutate-outside 13 type_13-IsOutside m s,
  mutate-outside 14 type_14-IsOutside m s,
  mutate-outside 15 type_15-IsOutside m s,
)

module _ (i : ℕ)
    (kept : (bit (flip (bits_user 7)) i ≡ 1)
      × (bit (flip (bits_group 7)) i ≡ 1)
      × (bit (flip 7) i ≡ 1)) where
  put_class-raises :
      (b : Bool) (mask class m : ℕ)
      → bit (flip mask) i ≡ 1
      → bit m i ≤ bit (put_class b mask class m) i
  put_class-raises true mask class m k =
      omega
        (arith, bit-bit_or (bit_and m (flip mask)) class i, bit-bit_and m (flip mask) i, bit-le m i)
  put_class-raises false mask class m k = omega arith

  apply_clauses-raises :
      (m : ℕ) (l : List ChmodClause) (cs : Classes) (new_mode : ℕ)
      → bit new_mode i ≤ bit (apply_clauses m l cs new_mode) i
  unfolding apply_clauses apply_clause
  apply_clauses-raises m [] cs n = omega arith
  apply_clauses-raises m (c ∷ l) cs n =
      let after = apply_actions m c.actions cs in
      let n1 = put_class c.user (bits_user 7) after.user n in
      let n2 = put_class c.group (bits_group 7) after.group n1 in
      omega (
        arith,
        put_class-raises c.user (bits_user 7) after.user n kept.0,
        put_class-raises c.group (bits_group 7) after.group n1 kept.1,
        put_class-raises c.others 7 after.others n2 kept.2,
        apply_clauses-raises m l after (put_class c.others 7 after.others n2),
      )

-- For every mode and mode string, `mutate` leaves the set-user-id bit (11) and the sticky bit (9) set where
-- they are set, also under `u-s`, `u=` and `o-t`.
pub mutate_raises :
    (m : ℕ) (s : ChmodSymbolic) → (bit m 11 ≤ bit (mutate m s) 11) × (bit m 9 ≤ bit (mutate m s) 9)
unfolding mutate
mutate_raises m s = (
  apply_clauses-raises 11 (refl, refl, refl) m s.clauses (classes_of m) m,
  apply_clauses-raises 9 (refl, refl, refl) m s.clauses (classes_of m) m,
)

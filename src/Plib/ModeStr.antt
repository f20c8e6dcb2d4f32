-- ===== src/Plib/ModeStr.antt =====
-- plib/src/modestr.rs: the data of mode strings, and `parse`.
pub mod Mutate
pub mod Totality
use posixutils_rs.Std.Numerals.{from_str_radix_8}
use posixutils_rs.Prelude.{
  ℕ, zero, suc, ◌+◌, ◌-◌, ◌*◌, ◌^◌, List, [], ◌∷◌, ◌++◌, Bool, true, false, ◌&&◌, ◌||◌, leb, ltb,
  ◌==◌, if◌then◌else◌, Option, none, some, ◌>>=◌,
}

pub data ChmodActionOp : Type 0 where
  add remove set : ChmodActionOp

pub record ChmodAction : Type 0 where
  pub op : ChmodActionOp
  pub copy_user : Bool
  pub copy_group : Bool
  pub copy_others : Bool
  pub read : Bool
  pub write : Bool
  pub execute : Bool
  pub execute_dir : Bool
  pub setuid : Bool
  pub sticky : Bool
  pub dirty : Bool

abbrev pub default_action : ChmodAction
default_action = record {
  op = set;
  copy_user = false;
  copy_group = false;
  copy_others = false;
  read = false;
  write = false;
  execute = false;
  execute_dir = false;
  setuid = false;
  sticky = false;
  dirty = false;
}

pub record ChmodClause : Type 0 where
  pub user : Bool
  pub group : Bool
  pub others : Bool
  pub actions : List ChmodAction
  pub dirty : Bool

abbrev pub default_clause : ChmodClause
default_clause = record { user = false; group = false; others = false; actions = []; dirty = false }

pub record ChmodSymbolic : Type 0 where
  pub clauses : List ChmodClause

pub data ChmodMode : Type 0 where
  absolute : ℕ → ChmodMode
  symbolic : ChmodSymbolic → ChmodMode

pub data ParseState : Type 0 where
  wholist actionlist list_or_copy perm_copy perm_list next_clause : ParseState

-- The variables of `parse`.
pub record Parser : Type 0 where
  pub state : ParseState
  pub clauses : List ChmodClause
  pub clause : ChmodClause
  pub action : ChmodAction

abbrev pub default_parser : Parser
default_parser = record {
  state = wholist;
  clauses = [];
  clause = default_clause;
  action = default_action;
}

-- A pass of the `while`: the character is used, or it is looked at once more, or `parse` fails.
pub data Turn : Type 0 where
  done again : Parser → Turn
  invalid : Turn

abbrev in_clause : Parser → ChmodClause → Turn
in_clause p cl = done (record p { clause = record cl { dirty = true } })

wholist_turn : ℕ → Parser → Turn
wholist_turn c p =
    if c == b'u'
    then in_clause p (record p.clause { user = true })
    else if c == b'g'
    then in_clause p (record p.clause { group = true })
    else if c == b'o'
    then in_clause p (record p.clause { others = true })
    else if c == b'a'
    then in_clause p (record p.clause { user = true; group = true; others = true })
    else again (record p { state = actionlist; clause = record p.clause { dirty = false } })

abbrev with_op : Parser → ChmodActionOp → Turn
with_op p o =
    done (record p { state = list_or_copy; action = record p.action { dirty = true; op = o } })

actionlist_turn : ℕ → Parser → Turn
actionlist_turn c p =
    if c == b'+'
    then with_op p add
    else if c == b'-'
    then with_op p remove
    else if c == b'='
    then with_op p set
    else again (record p {
      state = next_clause;
      clauses = p.clauses ++ p.clause ∷ [];
      clause = default_clause;
      action = record p.action { dirty = false };
    })

list_or_copy_turn : ℕ → Parser → Turn
list_or_copy_turn c p =
    if c == b'u' || c == b'g' || c == b'o'
    then again (record p { state = perm_copy })
    else again (record p { state = perm_list })

-- The last branch of the two lists: the action is pushed.
abbrev push_action : Parser → ChmodClause
push_action p = record p.clause { actions = p.clause.actions ++ p.action ∷ []; dirty = true }

abbrev end_action : Parser → Turn
end_action p =
    again (record p { state = actionlist; clause = push_action p; action = default_action })

perm_copy_turn : ℕ → Parser → Turn
perm_copy_turn c p =
    if c == b'u'
    then done (record p { action = record p.action { copy_user = true } })
    else if c == b'g'
    then done (record p { action = record p.action { copy_group = true } })
    else if c == b'o'
    then done (record p { action = record p.action { copy_others = true } })
    else end_action p

perm_list_turn : ℕ → Parser → Turn
perm_list_turn c p =
    if c == b'r'
    then done (record p { action = record p.action { read = true } })
    else if c == b'w'
    then done (record p { action = record p.action { write = true } })
    else if c == b'x'
    then done (record p { action = record p.action { execute = true } })
    else if c == b'X'
    then done (record p { action = record p.action { execute_dir = true } })
    else if c == b's'
    then done (record p { action = record p.action { setuid = true } })
    else if c == b't'
    then done (record p { action = record p.action { sticky = true } })
    else end_action p

next_clause_turn : ℕ → Parser → Turn
next_clause_turn c p = if c == b',' then done (record p { state = wholist }) else invalid

-- `match state`
turn_in : ParseState → ℕ → Parser → Turn
turn_in wholist = wholist_turn
turn_in actionlist = actionlist_turn
turn_in list_or_copy = list_or_copy_turn
turn_in perm_copy = perm_copy_turn
turn_in perm_list = perm_list_turn
turn_in next_clause = next_clause_turn

-- `stuck` is no behaviour of the code: the fuel of `turns` ran out.
pub data Parsed {ℓ} (A : Type ℓ) : Type ℓ where
  ok : A → Parsed A
  invalid_mode_string : Parsed A
  stuck : Parsed A

abbrev after_turn : Turn → (Parser → Parsed Parser) → Parsed Parser
after_turn (done p) look_again = ok p
after_turn (again p) look_again = look_again p
after_turn invalid look_again = invalid_mode_string

-- The `while` on one character.
turns : ℕ → ℕ → Parser → Parsed Parser
turns zero c p = stuck
turns (suc fuel) c p = after_turn (turn_in p.state c p) (λ p'. turns fuel c p')

-- A character is looked at four times at most.
abbrev turn_bound : ℕ
turn_bound = 4

-- `return Err(…)` leaves the rest undone.
infixl 5 ◌>>?◌
abbrev ◌>>?◌ : {A B : Type 0} → Parsed A → (A → Parsed B) → Parsed B
ok a >>? next = next a
invalid_mode_string >>? next = invalid_mode_string
stuck >>? next = stuck

-- The `for` on the characters.
chars : List ℕ → Parser → Parsed Parser
chars [] p = ok p
chars (c ∷ cs) p = turns turn_bound c p >>? λ p'. chars cs p'

-- After the loop.
finish_action : Parser → ChmodClause
finish_action p = if p.action.dirty then push_action p else p.clause

finish : Parser → ChmodSymbolic
finish p =
    let cl = finish_action p in
    record { clauses = if cl.dirty then p.clauses ++ cl ∷ [] else p.clauses }

pub parse : List ℕ → Parsed ChmodMode
parse mode = elim (from_str_radix_8 mode) [
  | some m ↦ ok (absolute m)
  | none ↦ chars mode default_parser >>? λ p. ok (symbolic (finish p))
]

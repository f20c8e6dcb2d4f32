-- ===== src/Plib/ModeStr/Totality.antt =====
-- How often `parse` looks at a character.
use posixutils_rs.Prelude.{
  ℕ, zero, suc, ◌<◌, ◌≤◌, ◌≢◌, refl, List, [], ◌∷◌, arith, Option-cases, inl, inr,
}
use posixutils_rs.Plib.ModeStr.{
  Parser, Turn, done, again, invalid, ParseState, wholist, actionlist, list_or_copy, perm_copy,
  perm_list, next_clause, turn_in, wholist_turn, actionlist_turn, list_or_copy_turn, perm_copy_turn,
  perm_list_turn, next_clause_turn, Parsed, ok, invalid_mode_string, stuck, turns, chars, parse,
  turn_bound, after_turn, ◌>>?◌, default_parser,
}
use posixutils_rs.Std.Numerals.{from_str_radix_8}

-- How many passes a character can still take.
abbrev rank : ParseState → ℕ
rank next_clause = 1
rank actionlist = 2
rank wholist = 3
rank perm_copy = 3
rank perm_list = 3
rank list_or_copy = 4

abbrev Falls : ℕ → Turn → Type 0
Falls n (again p) = rank p.state < n
Falls n _ = Unit

turn_in-Falls : (s : ParseState) (c : ℕ) (p : Parser) → Falls (rank s) (turn_in s c p)
unfolding turn_in wholist_turn actionlist_turn list_or_copy_turn perm_copy_turn perm_list_turn
    next_clause_turn
turn_in-Falls wholist c p = ground arith
turn_in-Falls actionlist c p = ground arith
turn_in-Falls list_or_copy c p = ground arith
turn_in-Falls perm_copy c p = ground arith
turn_in-Falls perm_list c p = ground arith
turn_in-Falls next_clause c p = ground arith

rank-pos : (s : ParseState) → 0 < rank s
rank-pos wholist = omega arith
rank-pos actionlist = omega arith
rank-pos list_or_copy = omega arith
rank-pos perm_copy = omega arith
rank-pos perm_list = omega arith
rank-pos next_clause = omega arith

after_turn-ne-stuck :
    (n : ℕ) (t : Turn) (look_again : Parser → Parsed Parser)
    → Falls n t
    → ((p : Parser) → rank p.state < n → look_again p ≢ stuck)
    → after_turn t look_again ≢ stuck
after_turn-ne-stuck n (done p) k f h = λ e. cc
after_turn-ne-stuck n (again p) k f h = h p f
after_turn-ne-stuck n invalid k f h = λ e. cc

turns-ne-stuck : (fuel c : ℕ) (p : Parser) → rank p.state ≤ fuel → turns fuel c p ≢ stuck
unfolding turns
turns-ne-stuck zero c p h = absurd (omega (arith, rank-pos p.state))
turns-ne-stuck (suc fuel) c p h =
    after_turn-ne-stuck (rank p.state) (turn_in p.state c p) _ (turn_in-Falls p.state c p)
      λ p' lt. turns-ne-stuck fuel c p' (omega arith)

rank-le : (s : ParseState) → rank s ≤ turn_bound
rank-le wholist = omega arith
rank-le actionlist = omega arith
rank-le list_or_copy = omega arith
rank-le perm_copy = omega arith
rank-le perm_list = omega arith
rank-le next_clause = omega arith

bind-ne-stuck :
    {A B : Type 0} (x : Parsed A) (next : A → Parsed B)
    → x ≢ stuck
    → ((a : A) → next a ≢ stuck)
    → (x >>? next) ≢ stuck
bind-ne-stuck (ok a) next h k = k a
bind-ne-stuck invalid_mode_string next h k = λ e. cc
bind-ne-stuck stuck next h k = λ e. h refl

chars-ne-stuck : (cs : List ℕ) (p : Parser) → chars cs p ≢ stuck
unfolding chars
chars-ne-stuck [] p = λ e. cc
chars-ne-stuck (c ∷ cs) p =
    bind-ne-stuck (turns turn_bound c p) _ (turns-ne-stuck turn_bound c p (rank-le p.state))
      λ p'. chars-ne-stuck cs p'

-- For every string, `parse` ends with a mode or with an error: four passes over a character are enough.
pub parse-ne-stuck : (mode : List ℕ) → parse mode ≢ stuck
unfolding parse
parse-ne-stuck mode = elim (Option-cases (from_str_radix_8 mode)) [
  | inr (m, e) ↦ rw (parse, e) λ d. cc
  | inl e ↦
      rw (parse, e)
        (bind-ne-stuck (chars mode default_parser) _ (chars-ne-stuck mode default_parser) λ p d. cc)
]

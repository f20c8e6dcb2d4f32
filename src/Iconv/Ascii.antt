-- ===== src/Iconv/Ascii.antt =====
-- i18n/iconv_lib/ascii.rs
pub mod Laws
mod Tests
use posixutils_rs.Prelude.{ℕ, suc, ◌+◌, ◌-◌, List, [], ◌∷◌, Bool, leb, if◌then◌else◌, length}
use posixutils_rs.Iconv.Stream.{Step, emit, stop, exit, Outcome, run}
use posixutils_rs.Iconv.Words.{as_u8}

-- "Invalid input position", with the position that is printed.
pub data Message : Type 0 where
  invalid_input : ℕ → Message

-- `position`, and what `input` has not given yet.
pub record State : Type 0 where
  pub position : ℕ
  pub input : List ℕ

module _ (omit_invalid suppress_error : Bool) (convert : ℕ → ℕ) where
  -- A turn of the `for` loop; the two closures differ in the cast of the item alone.
  pub turn : ℕ → List ℕ → Step Message State
  turn position [] = stop []
  turn position (code_point ∷ rest) =
      let next : State = record { position = position + 1; input = rest } in
      if leb code_point 127
      then emit (convert code_point ∷ []) [] next
      else if omit_invalid
      then emit [] [] next
      else if suppress_error
      then stop []
      else exit (invalid_input (position + 1 - 1) ∷ [])

  pub round : State → Step Message State
  round s = turn s.position s.input

pub to_ucs4 : Bool → Bool → List ℕ → Outcome Message
to_ucs4 omit quiet input =
    run (suc (length input)) (round omit quiet (λ b. b)) (record { position = 0; input = input })

pub from_ucs4 : Bool → Bool → List ℕ → Outcome Message
from_ucs4 omit quiet input =
    run (suc (length input)) (round omit quiet as_u8) (record { position = 0; input = input })

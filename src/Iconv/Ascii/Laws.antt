-- ===== src/Iconv/Ascii/Laws.antt =====
-- What the flags ask of the ASCII converters.
use posixutils_rs.Prelude.{
  ℕ, suc, ◌+◌, ◌≤◌, ◌≡◌, refl, List, [], ◌∷◌, Bool, true, leb, arith, ◌&&◌, ◌||◌, if◌then◌else◌,
  length,
}
use posixutils_rs.Iconv.Stream.{Status, run, finished, exited}
use posixutils_rs.Iconv.Words.{as_u8}
use posixutils_rs.Iconv.Ascii.{turn, round, to_ucs4, from_ucs4}

-- All items up to 127, and those before the first other.
pub ascii_items : List ℕ → List ℕ
ascii_items [] = []
ascii_items (c ∷ cs) = if leb c 127 then c ∷ ascii_items cs else ascii_items cs

pub ascii_prefix : List ℕ → List ℕ
ascii_prefix [] = []
ascii_prefix (c ∷ cs) = if leb c 127 then c ∷ ascii_prefix cs else []

pub all_ascii : List ℕ → Bool
all_ascii [] = true
all_ascii (c ∷ cs) = leb c 127 && all_ascii cs

-- What a converter must make of `input`: `-c` goes on behind a bad item; else it ends the stream, and
-- the process too unless `-s` is given.
pub expected : Bool → Bool → List ℕ → List ℕ × Status
expected omit quiet input = (
  if omit then ascii_items input else ascii_prefix input,
  if omit || quiet || all_ascii input then finished else exited,
)

module _ (omit quiet : Bool) (convert : ℕ → ℕ) (same : (c : ℕ) → c ≤ 127 → convert c ≡ c) where
  run-expected :
      (position : ℕ) (input : List ℕ)
      → let o =
          run
            (suc (length input))
            (round omit quiet convert)
            (record { position = position; input = input }) in
        ◌≡◌ {A = List ℕ × Status} (o.items, o.status) (expected omit quiet input)
  unfolding run round turn expected ascii_items ascii_prefix all_ascii
  run-expected position [] = ground arith
  run-expected position (c ∷ cs) = ground (arith, same c, run-expected (position + 1) cs)

-- For every input and both flags, `to_ucs4` keeps all items up to 127 with `-c`, else those before
-- the first other item, which then ends the process unless `-s` is given.
pub to_ucs4_expected_ascii :
    (omit quiet : Bool) (input : List ℕ)
    → ◌≡◌ {A = List ℕ × Status}
        ((to_ucs4 omit quiet input).items, (to_ucs4 omit quiet input).status)
        (expected omit quiet input)
unfolding to_ucs4
to_ucs4_expected_ascii omit quiet input = run-expected omit quiet (λ b. b) (λ c h. refl) 0 input

-- For every list of code points and both flags, `from_ucs4` keeps all items up to 127 with `-c`,
-- else those before the first other item, which then ends the process unless `-s` is given.
pub from_ucs4_expected_ascii :
    (omit quiet : Bool) (input : List ℕ)
    → ◌≡◌ {A = List ℕ × Status}
        ((from_ucs4 omit quiet input).items, (from_ucs4 omit quiet input).status)
        (expected omit quiet input)
unfolding from_ucs4
from_ucs4_expected_ascii omit quiet input =
    run-expected omit quiet as_u8 (λ c h. omega arith) 0 input

-- ===== src/Iconv/Words/Laws.antt =====
-- The laws of filling the buffer.
use posixutils_rs.Prelude.{
  ℕ, zero, suc, ◌-◌, ◌≤◌, ◌≡◌, ◌∙◌, ◌⊎◌, inl, inr, refl, ap, List, [], ◌∷◌, ◌++◌, arith, length,
  take, drop, length-append, take-append-drop, append_assoc,
}
use posixutils_rs.Iconv.Words.{Reader, fill, stream}

pub stream-fill : (n : ℕ) (r : Reader) → stream (fill n r) ≡ stream r
unfolding fill
stream-fill n r =
    append_assoc r.buffer _ _
    ∙ ap (λ (t : List ℕ). r.buffer ++ t) (take-append-drop (n - length r.buffer) r.input)

take_short : (k : ℕ) (xs : List ℕ) → (k ≤ length (take k xs)) ⊎ (drop k xs ≡ [])
take_short zero xs = inl (omega arith)
take_short (suc k) [] = inr refl
take_short (suc k) (x ∷ xs) = elim (take_short k xs) [ inl h ↦ inl (omega arith) | inr e ↦ inr e ]

-- After a fill, either the buffer has `n` bytes or the input is used up.
pub fill_short : (n : ℕ) (r : Reader) → (n ≤ length (fill n r).buffer) ⊎ ((fill n r).input ≡ [])
unfolding fill
fill_short n r = elim (take_short (n - length r.buffer) r.input) [
  | inl h ↦ inl (omega (arith, length-append r.buffer (take (n - length r.buffer) r.input)))
  | inr e ↦ inr e
]

-- ===== src/Text/Comm/Merging.antt =====
-- The columns of `comm` and the two files.
use posixutils_rs.Std.Strings.{str_lt, str_lt-total}
use posixutils_rs.Prelude.{
  ℕ, zero, suc, ◌+◌, ◌<◌, ◌≡◌, refl, ap, List, [], ◌∷◌, Bool, true, false, ◌||◌, ◌==◌,
  if◌then◌else◌, Option, some, length, All, arith, subst, Bool-cases, inl, inr,
}
use posixutils_rs.Text.Comm.{
  Line, no1, no2, nodup, Side, fetch, Calls, call, on_buffers, comm_loop, open_file, comm_calls,
}

-- A line that a reader gives has a byte at least.
abbrev pub IsLine : Line → Type 0
IsLine [] = ⊥
IsLine (x ∷ xs) = Unit

-- The lines that a side has still to give to the output.
abbrev pending : Side → List Line
pending s = elim s.buf [ [] ↦ s.rdr | x ∷ xs ↦ (x ∷ xs) ∷ s.rdr ]

abbrev IsGood : Side → Type 0
IsGood s = All IsLine s.rdr × (s.want ≡ false → s.rdr ≡ [])

abbrev IsFetched : Side → Type 0
IsFetched s = IsGood s × (s.buf ≡ [] → s.rdr ≡ [])

fetch-IsFetched :
    (rdr : List Line) (buf : Line) (want : Bool)
    → let s : Side = record { rdr = rdr; buf = buf; want = want } in
      IsGood s → IsFetched (fetch s) × (pending (fetch s) ≡ pending s)
unfolding fetch
fetch-IsFetched rdr (x ∷ xs) true g = ((g, λ e. cc), refl)
fetch-IsFetched rdr (x ∷ xs) false g = ((g, λ e. cc), refl)
fetch-IsFetched rdr [] false g = ((g, λ e. g.1 refl), refl)
fetch-IsFetched [] [] true g = (((tt, λ e. refl), λ e. refl), refl)
fetch-IsFetched ([] ∷ ls) [] true g = absurd g.0.0
fetch-IsFetched ((x ∷ xs) ∷ ls) [] true g = (((g.0.1, λ e. cc), λ e. cc), refl)

-- The lines that the calls give for the first and for the second file.
pub lines_of : ℕ → Calls → List Line
lines_of column [] = []
lines_of column ((t, s) ∷ cs) =
    let rest = lines_of column cs in if t == column || t == nodup then s ∷ rest else rest

abbrev pub IsColumn : ℕ × Line → Type 0
IsColumn c = ((c.0 == no1) || (c.0 == no2) || (c.0 == nodup)) ≡ true

abbrev Gives : Option Calls → List Line → List Line → Type 0
Gives o xs ys =
    (cs : Calls) × (o ≡ some cs) × (lines_of no1 cs ≡ xs) × (lines_of no2 cs ≡ ys) × All IsColumn cs

module _ (l : Line) (o : Option Calls) (xs ys : List Line) (g : Gives o xs ys) where
  give_first : Gives (call no1 l o) (l ∷ xs) ys
  unfolding lines_of
  give_first =
      let (cs, e, p, q, v) = g in
      ((no1, l) ∷ cs, rw e refl, ap (λ (t : List Line). l ∷ t) p, q, (refl, v))

  give_second : Gives (call no2 l o) xs (l ∷ ys)
  unfolding lines_of
  give_second =
      let (cs, e, p, q, v) = g in
      ((no2, l) ∷ cs, rw e refl, p, ap (λ (t : List Line). l ∷ t) q, (refl, v))

  give_both : Gives (call nodup l o) (l ∷ xs) (l ∷ ys)
  unfolding lines_of
  give_both =
      let (cs, e, p, q, v) = g in
      (
        (nodup, l) ∷ cs,
        rw e refl,
        ap (λ (t : List Line). l ∷ t) p,
        ap (λ (t : List Line). l ∷ t) q,
        (refl, v),
      )

abbrev left : Side → Side → ℕ
left s1 s2 = length (pending s1) + length (pending s2)

module _ (next : Side → Side → Option Calls) where
  -- The rounds that come after give what is left.
  abbrev GoesOn : ℕ → Type 0
  GoesOn n =
      (s1 s2 : Side)
      → IsGood s1
      → IsGood s2
      → left s1 s2 < n
      → Gives (next s1 s2) (pending s1) (pending s2)

  both_full :
      (x : ℕ) (xs : Line) (y : ℕ) (ys : Line) (r1 r2 : List Line) (w1 w2 : Bool)
      → let s1 : Side = record { rdr = r1; buf = x ∷ xs; want = w1 } in
        let s2 : Side = record { rdr = r2; buf = y ∷ ys; want = w2 } in
        GoesOn (left s1 s2)
        → IsGood s1
        → IsGood s2
        → Gives (on_buffers next s1 s2) (pending s1) (pending s2)
  unfolding on_buffers
  both_full x xs y ys r1 r2 w1 w2 h g1 g2 = elim (Bool-cases (str_lt (x ∷ xs) (y ∷ ys))) [
    | inl lt ↦ rw lt (give_first (x ∷ xs) _ _ _ (h _ _ g1 g2 (omega arith)))
    | inr ge ↦ elim (Bool-cases (str_lt (y ∷ ys) (x ∷ xs))) [
      | inl gt ↦ rw (ge, gt) (give_second (y ∷ ys) _ _ _ (h _ _ g1 g2 (omega arith)))
      | inr le ↦
          rw (ge, le)
            (subst
              (λ (l : Line).
                Gives
                  (call nodup (x ∷ xs) (
                    next (record { rdr = r1; buf = []; want = w1 })
                      (record { rdr = r2; buf = []; want = w2 })))
                  ((x ∷ xs) ∷ r1) (l ∷ r2))
              (str_lt-total (x ∷ xs) (y ∷ ys) ge le)
              (give_both (x ∷ xs) _ _ _ (h _ _ g1 g2 (omega arith))))
    ]
  ]

  on_buffers-Gives :
      (b1 b2 : Line) (r1 r2 : List Line) (w1 w2 : Bool)
      → let s1 : Side = record { rdr = r1; buf = b1; want = w1 } in
        let s2 : Side = record { rdr = r2; buf = b2; want = w2 } in
        GoesOn (left s1 s2)
        → IsFetched s1
        → IsFetched s2
        → Gives (on_buffers next s1 s2) (pending s1) (pending s2)
  unfolding on_buffers lines_of
  on_buffers-Gives [] [] r1 r2 w1 w2 h f1 f2 = rw (f1.1 refl, f2.1 refl) ([], refl, refl, refl, tt)
  on_buffers-Gives [] (y ∷ ys) r1 r2 w1 w2 h f1 f2 =
      give_second (y ∷ ys) _ _ _ (h _ _ f1.0 f2.0 (omega arith))
  on_buffers-Gives (x ∷ xs) [] r1 r2 w1 w2 h f1 f2 =
      give_first (x ∷ xs) _ _ _ (h _ _ f1.0 f2.0 (omega arith))
  on_buffers-Gives (x ∷ xs) (y ∷ ys) r1 r2 w1 w2 h f1 f2 =
      both_full x xs y ys r1 r2 w1 w2 h f1.0 f2.0

comm_loop-Gives :
    (fuel : ℕ) (s1 s2 : Side)
    → IsGood s1
    → IsGood s2
    → left s1 s2 < fuel
    → Gives (comm_loop fuel s1 s2) (pending s1) (pending s2)
unfolding comm_loop
comm_loop-Gives zero s1 s2 g1 g2 h = absurd (omega arith)
comm_loop-Gives (suc fuel) s1 s2 g1 g2 h =
    let (f1, p1) = fetch-IsFetched s1.rdr s1.buf s1.want g1 in
    let (f2, p2) = fetch-IsFetched s2.rdr s2.buf s2.want g2 in
    let bound = ap (λ (l : List Line). length l) p1 in
    let bound' = ap (λ (l : List Line). length l) p2 in
    subst (λ (l : List Line). Gives (comm_loop (suc fuel) s1 s2) l (pending s2)) p1
      (subst (λ (l : List Line). Gives (comm_loop (suc fuel) s1 s2) (pending (fetch s1)) l) p2
        (on_buffers-Gives (λ t1 t2. comm_loop fuel t1 t2) (fetch s1).buf (fetch s2).buf
          (fetch s1).rdr (fetch s2).rdr (fetch s1).want (fetch s2).want
          (λ t1 t2 d1 d2 lt. comm_loop-Gives fuel t1 t2 d1 d2 (omega arith)) f1 f2))

-- For every two files, sorted or not, `comm` ends; the lines of its first and third columns are the first
-- file, in its order, those of its second and third columns are the second file, and there is no other
-- column. A file is a list of lines that are not empty.
pub comm_columns :
    (lines1 lines2 : List Line)
    → All IsLine lines1
    → All IsLine lines2
    → (cs : Calls) × (comm_calls lines1 lines2 ≡ some cs)
      × (lines_of no1 cs ≡ lines1)
      × (lines_of no2 cs ≡ lines2)
      × All IsColumn cs
unfolding comm_calls
comm_columns lines1 lines2 l1 l2 =
    comm_loop-Gives (suc (length lines1 + length lines2)) (open_file lines1) (open_file lines2)
      (l1, λ e. cc) (l2, λ e. cc) (omega arith)

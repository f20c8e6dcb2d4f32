-- ===== src/Iconv/Stream.antt =====
-- The iterators of i18n/iconv_lib. A converter is the body of a loop over a state; one round emits
-- items and goes on, ends the stream (the closure returns `None`), ends the process by `exit(1)`, or
-- panics (`unreachable!()`).
-- The lines that go to stderr are values of a type `E`, kept apart from the items.
use posixutils_rs.Prelude.{
  ℕ, zero, suc, ◌<◌, ◌≡◌, ◌≢◌, refl, List, [], ◌∷◌, ◌++◌, Bool, true, false, arith, All, All-append,
  ap, ◌∙◌,
}

pub data Step (E S : Type 0) : Type 0 where
  emit : List ℕ → List E → S → Step E S
  stop : List E → Step E S
  exit : List E → Step E S
  panic : Step E S

-- `stuck` is no behaviour of the code: the fuel of `run` ran out.
pub data Status : Type 0 where
  finished exited panicked stuck : Status

pub record Outcome (E : Type 0) : Type 0 where
  pub items : List ℕ
  pub errors : List E
  pub status : Status

-- `if !suppress_error { eprintln!(…) }`
abbrev pub report : {E : Type 0} → Bool → E → List E
report true e = []
report false e = e ∷ []

module _ {E : Type 0} where
  abbrev pub after : List ℕ → List E → Outcome E → Outcome E
  after xs es o = record o { items = xs ++ o.items; errors = es ++ o.errors }

module _ {E S : Type 0} where
  abbrev pub follow : Step E S → (S → Outcome E) → Outcome E
  follow (emit xs es s) rest = after xs es (rest s)
  follow (stop es) rest = record { items = []; errors = es; status = finished }
  follow (exit es) rest = record { items = []; errors = es; status = exited }
  follow panic rest = record { items = []; errors = []; status = panicked }

  -- What a round leaves to do is smaller by `size`.
  abbrev pub Shrinks : (S → ℕ) → S → Step E S → Type 0
  Shrinks size s (emit xs es s') = size s' < size s
  Shrinks size s _ = Unit

  -- The items of a round are good, and the invariant holds of what is left.
  abbrev pub Keeps : (S → Type 0) → (ℕ → Type 0) → Step E S → Type 0
  Keeps I P (emit xs es s') = All P xs × I s'
  Keeps I P _ = Unit

  unfoldable pub run : ℕ → (S → Step E S) → S → Outcome E
  run zero body s = record { items = []; errors = []; status = stuck }
  run (suc fuel) body s = follow (body s) (λ s'. run fuel body s')

  pub run-emit :
      (fuel : ℕ) (body : S → Step E S) (s s' : S) (xs : List ℕ) (es : List E)
      → body s ≡ emit xs es s'
      → run (suc fuel) body s ≡ after xs es (run fuel body s')
  unfolding run
  run-emit fuel body s s' xs es e = rw e

  pub run-stop :
      (fuel : ℕ) (body : S → Step E S) (s : S) (es : List E)
      → body s ≡ stop es
      → run (suc fuel) body s ≡ record { items = []; errors = es; status = finished }
  unfolding run
  run-stop fuel body s es e = rw e

  pub run-exit :
      (fuel : ℕ) (body : S → Step E S) (s : S) (es : List E)
      → body s ≡ exit es
      → run (suc fuel) body s ≡ record { items = []; errors = es; status = exited }
  unfolding run
  run-exit fuel body s es e = rw e

module _ {E S : Type 0} (size : S → ℕ) (body : S → Step E S) where
  follow-ne-stuck :
      (s : S) (r : Step E S) (rest : S → Outcome E)
      → Shrinks size s r
      → ((s' : S) → size s' < size s → (rest s').status ≢ stuck)
      → (follow r rest).status ≢ stuck
  follow-ne-stuck s (emit xs es s') rest small h = h s' small
  follow-ne-stuck s (stop es) rest small h = λ e. cc
  follow-ne-stuck s (exit es) rest small h = λ e. cc
  follow-ne-stuck s panic rest small h = λ e. cc

  -- Fuel above the size is enough.
  pub run_total :
      ((s : S) → Shrinks size s (body s))
      → (fuel : ℕ) (s : S) → size s < fuel
      → (run fuel body s).status ≢ stuck
  unfolding run
  run_total small zero s h = absurd (omega arith)
  run_total small (suc fuel) s h =
      follow-ne-stuck s (body s) _ (small s) λ s' lt. run_total small fuel s' (omega arith)

module _ {E S : Type 0} (I : S → Type 0) (P : ℕ → Type 0) (body : S → Step E S) where
  follow-All :
      (r : Step E S) (rest : S → Outcome E)
      → Keeps I P r
      → ((s' : S) → I s' → All P (rest s').items)
      → All P (follow r rest).items
  follow-All (emit xs es s') rest k h = All-append P xs _ k.0 (h s' k.1)
  follow-All (stop es) rest k h = tt
  follow-All (exit es) rest k h = tt
  follow-All panic rest k h = tt

  -- Every item of the stream is good, if every round keeps the invariant.
  pub run-All :
      ((s : S) → I s → Keeps I P (body s))
      → (fuel : ℕ) (s : S) → I s
      → All P (run fuel body s).items
  unfolding run
  run-All keep zero s h = tt
  run-All keep (suc fuel) s h = follow-All (body s) _ (keep s h) λ s' i. run-All keep fuel s' i

-- The process is neither ended nor brought down.
abbrev pub IsOrderly : Status → Type 0
IsOrderly exited = ⊥
IsOrderly panicked = ⊥
IsOrderly _ = Unit

module _ {E S : Type 0} (I : S → Type 0) where
  -- The round runs, and the invariant holds of what is left.
  abbrev pub KeepsRunning : Step E S → Type 0
  KeepsRunning (emit xs es s) = I s
  KeepsRunning (stop es) = Unit
  KeepsRunning _ = ⊥

  follow-IsOrderly :
      (r : Step E S) (rest : S → Outcome E)
      → KeepsRunning r
      → ((s' : S) → I s' → IsOrderly (rest s').status)
      → IsOrderly (follow r rest).status
  follow-IsOrderly (emit xs es s') rest k h = h s' k
  follow-IsOrderly (stop es) rest k h = tt
  follow-IsOrderly (exit es) rest k h = absurd k
  follow-IsOrderly panic rest k h = absurd k

  -- Rounds that never exit or panic make a stream that never does.
  pub run-IsOrderly :
      (body : S → Step E S)
      → ((s : S) → I s → KeepsRunning (body s))
      → (fuel : ℕ) (s : S) → I s
      → IsOrderly (run fuel body s).status
  unfolding run
  run-IsOrderly body ok zero s i = tt
  run-IsOrderly body ok (suc fuel) s i =
      follow-IsOrderly (body s) _ (ok s i) λ s' j. run-IsOrderly body ok fuel s' j

module _ {E S T : Type 0} (view : S → T) where
  -- A round seen through a view of its state.
  abbrev pub map_state : Step E S → Step E T
  map_state (emit xs es s) = emit xs es (view s)
  map_state (stop es) = stop es
  map_state (exit es) = exit es
  map_state panic = panic

  follow-map_state :
      (r : Step E S) (k : S → Outcome E) (l : T → Outcome E)
      → ((s : S) → k s ≡ l (view s))
      → follow r k ≡ follow (map_state r) l
  follow-map_state (emit xs es s) k l h = rw (h s)
  follow-map_state (stop es) k l h = refl
  follow-map_state (exit es) k l h = refl
  follow-map_state panic k l h = refl

  -- Two loops whose rounds agree through the view make the same stream.
  pub run-map_state :
      (body : S → Step E S) (spec : T → Step E T)
      → ((s : S) → map_state (body s) ≡ spec (view s))
      → (fuel : ℕ) (s : S) → run fuel body s ≡ run fuel spec (view s)
  unfolding run
  run-map_state body spec h zero s = refl
  run-map_state body spec h (suc fuel) s =
      follow-map_state (body s) _ _ (λ s'. run-map_state body spec h fuel s')
      ∙ ap (λ (r : Step E T). follow r (λ t. run fuel spec t)) (h s)

module _ {E S : Type 0} (I : S → Type 0) (P : ℕ → Type 0) (size : S → ℕ) where
  -- The round does not end the process, emits good items, keeps the invariant and leaves less to do.
  abbrev pub Sound : S → Step E S → Type 0
  Sound s (emit xs es s') = All P xs × I s' × (size s' < size s)
  Sound s (stop es) = Unit
  Sound s _ = ⊥

  follow-Sound :
      (s : S) (r : Step E S) (rest : S → Outcome E)
      → Sound s r
      → ((s' : S) → I s' → size s' < size s → All P (rest s').items × ((rest s').status ≡ finished))
      → All P (follow r rest).items × ((follow r rest).status ≡ finished)
  follow-Sound s (emit xs es s') rest k h =
      let (good, done) = h s' k.1 k.2 in (All-append P xs _ k.0 good, done)
  follow-Sound s (stop es) rest k h = (tt, refl)
  follow-Sound s (exit es) rest k h = absurd k
  follow-Sound s panic rest k h = absurd k

  -- A loop of such rounds ends by its own, and all its items are good.
  pub run-Sound :
      (body : S → Step E S)
      → ((s : S) → I s → Sound s (body s))
      → (fuel : ℕ) (s : S) → I s
      → size s < fuel
      → All P (run fuel body s).items × ((run fuel body s).status ≡ finished)
  unfolding run
  run-Sound body ok zero s i h = absurd (omega arith)
  run-Sound body ok (suc fuel) s i h =
      follow-Sound s (body s) _ (ok s i) λ s' j lt. run-Sound body ok fuel s' j (omega arith)

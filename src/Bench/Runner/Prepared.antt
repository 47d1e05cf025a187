-- ===== src/Bench/Runner/Prepared.antt =====
-- forastero/bench.py, BaseBench.testcase: when a run comes to the body of its test.
use forastero.Prelude.{
  ◌&&◌, ◌||◌, not, if◌then◌else◌, ℕ, ◌≡◌, refl, ap, ◌∙◌, List, [], ◌∷◌, ◌++◌, Option, none, some,
  Bool, true, false, inl, inr, Bool-cases,
}
use forastero.Bench.Runner.{
  Options, Built, Resets, pulse, reset_raised, Event, Outcome, components_missing, Run, ◌>>◌, does,
  idents, missing, refuse_missing, check, start, prepare, imposter_inner, await_all,
}

abbrev is_none : {A : Type 0} → Option A → Bool
is_none none = true
is_none (some x) = false

-- No call of `reset` that is made raises.
abbrev pub resets_return : Options → Resets → Bool
resets_return o r = not o.reset || (is_none r.first && is_none r.second)

abbrev pub unregistered : Built → List ℕ
unregistered b = missing b.created (idents b.components)

pub goes : (r next : Run) → r.1 ≡ none → ((r >> next).1 ≡ next.1) × ((r >> next).0 ≡ r.0 ++ next.0)
goes (events, none) next h = (refl, refl)
goes (events, some outcome) next h = cc

pub stops : (r next : Run) (outcome : Outcome) → r.1 ≡ some outcome → (r >> next).1 ≡ some outcome
stops (events, none) next outcome h = cc
stops (events, some other) next outcome h = h

checked : Built → Run
unfolding check start
checked b = check b >> start b

checked-refused :
    (b : Built) (c : ℕ) (cs : List ℕ)
    → unregistered b ≡ c ∷ cs
    → (checked b).1 ≡ some components_missing
unfolding checked refuse_missing
checked-refused b c cs h = simp (h, check, refuse_missing) refl

checked-accepted : (b : Built) → unregistered b ≡ [] → (checked b).1 ≡ none
unfolding checked refuse_missing
checked-accepted b h = simp (h, check, refuse_missing) refl

pub prepare-refused :
    (o : Options) (b : Built) (r : Resets) (c : ℕ) (cs : List ℕ)
    → unregistered b ≡ c ∷ cs
    → (prepare o b r).1 ≡ some components_missing
unfolding prepare checked
prepare-refused o b r c cs h =
    let once = checked-refused b c cs h in
    elim (Bool-cases o.reset) [
      | inl again ↦ simp again (
          stops (checked b >> pulse o b r.first >> checked b) (pulse o b r.second) _ (
            stops (checked b >> pulse o b r.first) (checked b) _
              (stops (checked b) (pulse o b r.first) _ once)))
      | inr one ↦ simp one once
    ]

pulses-end :
    (o : Options) (b : Built) (x y : Option ℕ)
    → unregistered b ≡ []
    → (checked b >> pulse o b x >> checked b >> pulse o b y).1
      ≡ (if is_none x && is_none y then none else some reset_raised)
unfolding pulse
pulses-end o b none y h =
    let once = checked-accepted b h in
    let first = (goes (checked b) (pulse o b none) once).0 in
    let again = (goes (checked b >> pulse o b none) (checked b) first).0 ∙ once in
    (goes (checked b >> pulse o b none >> checked b) (pulse o b y) again).0 ∙ last y
  where
    last : (y : Option ℕ) → (pulse o b y).1 ≡ (if is_none y then none else some reset_raised)
    last none = refl
    last (some n) = refl
pulses-end o b (some n) y h =
    let first = (goes (checked b) (pulse o b (some n)) (checked-accepted b h)).0 in
    stops (checked b >> pulse o b (some n) >> checked b) (pulse o b y) _
      (stops (checked b >> pulse o b (some n)) (checked b) _ first)

prepare-ends :
    (o : Options) (b : Built) (r : Resets)
    → unregistered b ≡ []
    → (prepare o b r).1 ≡ (if resets_return o r then none else some reset_raised)
unfolding prepare checked
prepare-ends o b r h = elim (Bool-cases o.reset) [
  | inl again ↦ simp again (pulses-end o b r.first r.second h)
  | inr one ↦ simp one (checked-accepted b h)
]

pub prepare-accepted :
    (o : Options) (b : Built) (r : Resets)
    → unregistered b ≡ []
    → resets_return o r ≡ true
    → (prepare o b r).1 ≡ none
prepare-accepted o b r h well =
    prepare-ends o b r h ∙ ap (λ ok. if ok then none else some reset_raised) well

pub prepare-raised :
    (o : Options) (b : Built) (r : Resets)
    → unregistered b ≡ []
    → resets_return o r ≡ false
    → (prepare o b r).1 ≡ some reset_raised
prepare-raised o b r h bad =
    prepare-ends o b r h ∙ ap (λ ok. if ok then none else some reset_raised) bad

-- Up to the mark that the testbench is ready, and the components' own.
unfoldable pub before : Options → Built → Resets → Run
unfolding imposter_inner
before o b r =
    does (Event.clear_components ∷ []) >> prepare o b r >> does (Event.mark_ready ∷ await_all b)

pub before-accepted :
    (o : Options) (b : Built) (r : Resets) → (prepare o b r).1 ≡ none → (before o b r).1 ≡ none
unfolding before
before-accepted o b r h =
    let first = goes (does (Event.clear_components ∷ [])) (prepare o b r) refl in
    (goes (does (Event.clear_components ∷ []) >> prepare o b r)
      (does (Event.mark_ready ∷ await_all b)) (first.0 ∙ h)).0

pub before-stopped :
    (o : Options) (b : Built) (r : Resets) (outcome : Outcome)
    → (prepare o b r).1 ≡ some outcome
    → (before o b r).1 ≡ some outcome
unfolding before
before-stopped o b r outcome h =
    stops (does (Event.clear_components ∷ []) >> prepare o b r)
      (does (Event.mark_ready ∷ await_all b)) outcome
      ((goes (does (Event.clear_components ∷ [])) (prepare o b r) refl).0 ∙ h)

-- ===== src/Bench/CloseDown/Phases.antt =====
-- forastero/bench.py, BaseBench.close_down: each phase of a loop runs to its end.
use Prim.Native.String.{String}
use forastero.Prelude.{
  ℕ, zero, suc, ◌+◌, ◌≡◌, refl, sym, ap, ◌∙◌, subst, List, [], ◌∷◌, ◌++◌, none, some, map, length,
  get_elem?, append-nil, append_assoc, length-append, arith,
}
use forastero.Bench.CloseDown.{
  Wait, sequence, clock_cycles, driver_idle, monitor_idle, process, scoreboard_drain, teardown_step,
  Stage, at_sequence, at_delay, at_driver, at_monitor, at_process, at_drain, at_teardown, finished,
  Shutdown, wait, next_teardown, next_sequence, next_process, collect, next_monitor, next_driver,
  returned_at, returned,
}

-- So many waits come to their end, and nothing else happens.
abbrev pub returns : ℕ → Shutdown → Shutdown
returns zero s = s
returns (suc n) s = returns n (returned s)

abbrev pub Leads : Shutdown → Shutdown → Type 0
Leads s t = (n : ℕ) × (returns n s ≡ t)

Leads-on : (s t : Shutdown) → Leads (returned s) t → Leads s t
Leads-on s t (n, e) = (suc n, e)

Leads-from : (s s' t : Shutdown) → s ≡ s' → Leads s t → Leads s' t
Leads-from s s' t e h = subst (λ u. Leads u t) e h

returns-add : (n m : ℕ) (s : Shutdown) → returns m (returns n s) ≡ returns (n + m) s
returns-add zero m s = let e : m ≡ zero + m = omega arith in ap (λ k. returns k s) e
returns-add (suc n) m s =
    let e : suc (n + m) ≡ suc n + m = omega arith in
    returns-add n m (returned s) ∙ ap (λ k. returns k s) e

pub Leads-trans : (s t u : Shutdown) → Leads s t → Leads t u → Leads s u
Leads-trans s t u (n, e) (m, f) = (n + m, sym (returns-add n m s) ∙ ap (returns m) e ∙ f)

get-length : {A : Type 0} (xs : List A) → get_elem? xs (length xs) ≡ none
get-length [] = refl
get-length (x ∷ xs) = get-length xs

get-append :
    {A : Type 0} (xs : List A) (y : A) (ys : List A)
    → get_elem? (xs ++ (y ∷ ys)) (length xs) ≡ some y
get-append [] y ys = refl
get-append (x ∷ xs) y ys = get-append xs y ys

abbrev with_waits : List Wait → Shutdown → Shutdown
with_waits ws s = record s { waits = s.waits ++ ws }

abbrev pub at_stage : Stage → List Wait → Shutdown → Shutdown
at_stage stage ws s = record s { stage = stage; waits = s.waits ++ ws }

longer :
    (stage : Stage) (w : Wait) (ws : List Wait) (other : Stage) (s : Shutdown)
    → at_stage stage ws (wait other w s) ≡ at_stage stage (w ∷ ws) s
longer stage w ws other s =
    ap (λ all. record s { stage = stage; waits = all }) (append_assoc s.waits (w ∷ []) ws)

next_process-Leads :
    (procs : List ℕ) (s : Shutdown)
    → Leads
        (next_process procs s)
        (at_stage at_drain (map process procs ++ scoreboard_drain ∷ []) s)
unfolding next_process returned returned_at
next_process-Leads [] s = (0, refl)
next_process-Leads (p ∷ procs) s = Leads-on _ _ (
    subst (Leads _) (longer at_drain (process p) _ (at_process procs) s)
      (next_process-Leads procs (wait (at_process procs) (process p) s)))

next_monitor-Leads :
    (names : List String) (s : Shutdown)
    → Leads (next_monitor names s) (
        at_stage at_drain
          (map monitor_idle names ++ (map process s.processes ++ scoreboard_drain ∷ []))
          (record s { processes = [] }))
unfolding next_monitor collect returned returned_at
next_monitor-Leads [] s = next_process-Leads s.processes (record s { processes = [] })
next_monitor-Leads (name ∷ names) s = Leads-on _ _ (
    subst (Leads _)
      (longer at_drain (monitor_idle name) _ (at_monitor names) (record s { processes = [] }))
      (next_monitor-Leads names (wait (at_monitor names) (monitor_idle name) s)))

next_driver-Leads :
    (names : List String) (s : Shutdown)
    → Leads (next_driver names s) (
        at_stage at_drain
          (map driver_idle names
            ++ (map monitor_idle s.monitors ++ (map process s.processes ++ scoreboard_drain ∷ [])))
          (record s { processes = [] }))
unfolding next_driver returned returned_at
next_driver-Leads [] s = next_monitor-Leads s.monitors s
next_driver-Leads (name ∷ names) s = Leads-on _ _ (
    subst (Leads _)
      (longer at_drain (driver_idle name) _ (at_driver names) (record s { processes = [] }))
      (next_driver-Leads names (wait (at_driver names) (driver_idle name) s)))

-- Behind the sequences, from the wait for the minimum delay on.
abbrev pub delay_waits : Shutdown → List Wait
delay_waits s =
    clock_cycles s.delay
    ∷ (map driver_idle s.drivers
        ++ (map monitor_idle s.monitors ++ (map process s.processes ++ scoreboard_drain ∷ [])))

delay-Leads :
    (s : Shutdown)
    → Leads
        (wait at_delay (clock_cycles s.delay) s)
        (at_stage at_drain (delay_waits s) (record s { processes = [] }))
unfolding returned returned_at
delay-Leads s = Leads-on _ _ (
    subst (Leads _)
      (longer at_drain (clock_cycles s.delay) _ at_delay (record s { processes = [] }))
      (next_driver-Leads s.drivers (wait at_delay (clock_cycles s.delay) s)))

pub next_sequence-Leads :
    (pre rest : List ℕ) (s : Shutdown)
    → s.sequences ≡ pre ++ rest
    → Leads
        (next_sequence (length pre) s)
        (at_stage at_drain (map sequence rest ++ delay_waits s) (record s { processes = [] }))
unfolding next_sequence returned returned_at
next_sequence-Leads pre [] s e =
    let none_left : get_elem? s.sequences (length pre) ≡ none =
      ap (λ ts. get_elem? ts (length pre)) (e ∙ append-nil pre) ∙ get-length pre in
    simp (none_left, next_sequence) (delay-Leads s)
next_sequence-Leads pre (t ∷ rest) s e =
    let one_left : get_elem? s.sequences (length pre) ≡ some t =
      ap (λ ts. get_elem? ts (length pre)) e ∙ get-append pre t rest in
    let s1 = wait (at_sequence (length pre)) (sequence t) s in
    let index : length (pre ++ t ∷ []) ≡ suc (length pre) =
      omega (arith, length-append pre (t ∷ [])) in
    let later =
      next_sequence-Leads (pre ++ t ∷ []) rest s1 (e ∙ sym (append_assoc pre (t ∷ []) rest)) in
    simp (one_left, next_sequence)
      (Leads-on s1 _ (
        subst (Leads _)
          (longer at_drain (sequence t) _ (at_sequence (length pre)) (record s { processes = [] }))
          (Leads-from _ _ _ (ap (λ i. next_sequence i s1) index) later)))

pub next_teardown-Leads :
    (pre rest : List ℕ) (s : Shutdown)
    → s.teardown ≡ pre ++ rest
    → Leads (next_teardown (length pre) s) (at_stage finished (map teardown_step rest) s)
unfolding next_teardown returned returned_at
next_teardown-Leads pre [] s e =
    let none_left : get_elem? s.teardown (length pre) ≡ none =
      ap (λ ts. get_elem? ts (length pre)) (e ∙ append-nil pre) ∙ get-length pre in
    simp (none_left, next_teardown)
      (0, ap (λ ws. record s { stage = finished; waits = ws }) (sym (append-nil s.waits)))
next_teardown-Leads pre (t ∷ rest) s e =
    let one_left : get_elem? s.teardown (length pre) ≡ some t =
      ap (λ ts. get_elem? ts (length pre)) e ∙ get-append pre t rest in
    let s1 = wait (at_teardown (length pre)) (teardown_step t) s in
    let index : length (pre ++ t ∷ []) ≡ suc (length pre) =
      omega (arith, length-append pre (t ∷ [])) in
    let later =
      next_teardown-Leads (pre ++ t ∷ []) rest s1 (e ∙ sym (append_assoc pre (t ∷ []) rest)) in
    simp (one_left, next_teardown)
      (Leads-on s1 _ (
        subst (Leads _) (longer finished (teardown_step t) _ (at_teardown (length pre)) s)
          (Leads-from _ _ _ (ap (λ i. next_teardown i s1) index) later)))

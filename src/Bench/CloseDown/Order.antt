-- ===== src/Bench/CloseDown/Order.antt =====
-- forastero/bench.py, BaseBench.close_down: the order of its waits, and its end.
use Prim.Native.String.{String}
use forastero.Prelude.{
  ℕ, zero, suc, ◌≡◌, refl, ap, ◌∙◌, subst, List, [], ◌∷◌, ◌++◌, map, append_assoc,
}
use forastero.Bench.Kinds.{Registered}
use forastero.Bench.CloseDown.{
  Wait, sequence, clock_cycles, driver_idle, monitor_idle, process, scoreboard_drain, teardown_step,
  Stage, at_delay, at_drain, finished, Shutdown, blocking_drivers, blocking_monitors, begin_loop,
  returned_at, returned, close_down,
}
use forastero.Bench.CloseDown.Phases.{
  returns, Leads, Leads-trans, at_stage, delay_waits, next_sequence-Leads, next_teardown-Leads,
}

-- The waits of one round of the loop.
abbrev pub one_loop : ℕ → List String → List String → List ℕ → List ℕ → List Wait
one_loop delay drivers monitors sequences processes =
    map sequence sequences
    ++ (clock_cycles delay
        ∷ (map driver_idle drivers
            ++ (map monitor_idle monitors ++ (map process processes ++ scoreboard_drain ∷ []))))

abbrev loop_waits : Shutdown → List ℕ → List Wait
loop_waits s processes = one_loop s.delay s.drivers s.monitors s.sequences processes

abbrev all_waits : ℕ → Shutdown → List ℕ → List Wait
all_waits zero s processes = map teardown_step s.teardown
all_waits (suc loops) s processes = loop_waits s processes ++ all_waits loops s []

-- The end of a shutdown with so many loops to go.
abbrev Ends : Shutdown → List Wait → Type 0
Ends s ws = (t : Shutdown) × Leads s t × (t.stage ≡ finished) × (t.waits ≡ ws)

Ends-on : (s t : Shutdown) (ws : List Wait) → Leads s t → Ends t ws → Ends s ws
Ends-on s t ws first (u, rest, ends, waited) = (u, Leads-trans s t u first rest, ends, waited)

all_waits-same :
    (n : ℕ) (s : Shutdown) (ps : List ℕ) (loops : ℕ) (processes : List ℕ) (stage : Stage)
    (ws : List Wait)
    → all_waits n (record s { loops = loops; processes = processes; stage = stage; waits = ws }) ps
      ≡ all_waits n s ps
all_waits-same zero s ps loops processes stage ws = refl
all_waits-same (suc n) s ps loops processes stage ws =
    ap (λ later. loop_waits s ps ++ later) (all_waits-same n s [] loops processes stage ws)

begin_loop-Ends :
    (loops : ℕ) (s : Shutdown)
    → Ends (begin_loop loops s) (s.waits ++ all_waits loops s s.processes)
unfolding begin_loop returned returned_at
begin_loop-Ends zero s = (
  at_stage finished (map teardown_step s.teardown) s,
  next_teardown-Leads [] s.teardown s refl,
  refl,
  refl,
)
begin_loop-Ends (suc loops) s =
    let s1 = record s { loops = loops } in
    let s2 =
      at_stage at_drain (map sequence s.sequences ++ delay_waits s)
        (record s1 { processes = [] }) in
    Ends-on _ s2 _ (next_sequence-Leads [] s.sequences s1 refl) (
      Ends-on s2 (begin_loop loops s2) _ (1, refl)
        (subst (Ends (begin_loop loops s2))
          (ap (λ later. s2.waits ++ later) (all_waits-same loops s [] loops [] at_drain s2.waits)
            ∙ append_assoc s.waits (loop_waits s s.processes) (all_waits loops s []))
          (begin_loop-Ends loops s2)))

-- The waits of all loops, and the teardown behind them.
abbrev pub expected : ℕ → ℕ → List (String × Registered) → List ℕ → List ℕ → List ℕ → List Wait
expected zero delay components sequences processes teardown = map teardown_step teardown
expected (suc loops) delay components sequences processes teardown =
    one_loop delay (blocking_drivers components) (blocking_monitors components) sequences processes
    ++ expected loops delay components sequences [] teardown

all_waits-expected :
    (loops delay left : ℕ) (components : List (String × Registered))
    (sequences processes known teardown : List ℕ)
    → all_waits loops
        (record {
          drivers = blocking_drivers components;
          monitors = blocking_monitors components;
          delay = delay;
          loops = left;
          sequences = sequences;
          processes = known;
          teardown = teardown;
          stage = at_delay;
          waits = [];
        })
        processes
      ≡ expected loops delay components sequences processes teardown
all_waits-expected zero delay left components sequences processes known teardown = refl
all_waits-expected (suc loops) delay left components sequences processes known teardown =
    ap
      (λ later.
        one_loop delay (blocking_drivers components) (blocking_monitors components) sequences
          processes
        ++ later)
      (all_waits-expected loops delay left components sequences [] known teardown)

-- When every wait of a shutdown comes to its end and nothing else is registered meanwhile, the
-- shutdown comes to its end, having awaited in this order: in each loop all blocking sequences, the
-- delay, the blocking drivers, the blocking monitors, the processes (in the first loop alone), and the
-- drain of the scoreboard; behind all loops the teardown steps.
pub close_down-ends :
    (loops delay : ℕ) (components : List (String × Registered))
    (sequences processes teardown : List ℕ)
    → let s = close_down loops delay components sequences processes teardown in
      (n : ℕ) × ((returns n s).stage ≡ finished)
      × ((returns n s).waits ≡ expected loops delay components sequences processes teardown)
unfolding close_down
close_down-ends loops delay components sequences processes teardown =
    let (t, (n, e), ends, waited) = begin_loop-Ends loops (record {
      drivers = blocking_drivers components;
      monitors = blocking_monitors components;
      delay = delay;
      loops = loops;
      sequences = sequences;
      processes = processes;
      teardown = teardown;
      stage = at_delay;
      waits = [];
    }) in
    (
      n,
      ap (λ (u : Shutdown). u.stage) e ∙ ends,
      ap (λ (u : Shutdown). u.waits) e
          ∙ waited
          ∙ all_waits-expected loops delay loops components sequences processes processes teardown,
    )

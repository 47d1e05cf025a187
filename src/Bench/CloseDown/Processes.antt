-- ===== src/Bench/CloseDown/Processes.antt =====
-- forastero/bench.py, BaseBench.close_down: no process is awaited twice, and none is forgotten.
use Prim.Native.String.{String}
use forastero.Prelude.{
  ℕ, zero, suc, ◌+◌, ◌≡◌, refl, List, [], ◌∷◌, ◌++◌, Bool, true, false, get_elem?, count,
  count-append, arith, Option-cases, inl, inr,
}
use forastero.Bench.Kinds.{Registered}
use forastero.Bench.CloseDown.{
  Wait, sequence, clock_cycles, driver_idle, monitor_idle, process, scoreboard_drain, teardown_step,
  Stage, at_sequence, at_delay, at_driver, at_monitor, at_process, at_drain, at_teardown, finished,
  Shutdown, next_teardown, next_sequence, begin_loop, next_process, collect, next_monitor,
  next_driver, returned_at, returned, close_down, schedule, register_process, add_teardown,
}

-- What happens while a shutdown runs.
pub data Move : Type 0 where
  returns : Move
  schedules : Bool → ℕ → Move
  registers adds_teardown : ℕ → Move

abbrev pub step : Move → Shutdown → Shutdown
step returns s = returned s
step (schedules blocking task) s = schedule blocking task s
step (registers proc) s = register_process proc s
step (adds_teardown coro) s = add_teardown coro s

abbrev pub run : List Move → Shutdown → Shutdown
run [] s = s
run (move ∷ moves) s = run moves (step move s)

-- The processes that the waits so far were for, and those that a stage still has before it.
abbrev pub awaited : List Wait → List ℕ
awaited [] = []
awaited (process p ∷ waits) = p ∷ awaited waits
awaited (_ ∷ waits) = awaited waits

abbrev pub pending : Stage → List ℕ
pending (at_process procs) = procs
pending _ = []

abbrev pub registered : List Move → List ℕ
registered [] = []
registered (registers p ∷ moves) = p ∷ registered moves
registered (_ ∷ moves) = registered moves

-- How often a process is awaited, about to be, or registered.
abbrev total : ℕ → Shutdown → ℕ
total p s = count p (awaited s.waits) + count p (pending s.stage) + count p s.processes

awaited-append :
    (p : ℕ) (xs ys : List Wait)
    → count p (awaited (xs ++ ys)) ≡ count p (awaited xs) + count p (awaited ys)
awaited-append p [] ys = omega arith
awaited-append p (sequence t ∷ xs) ys = awaited-append p xs ys
awaited-append p (clock_cycles n ∷ xs) ys = awaited-append p xs ys
awaited-append p (driver_idle n ∷ xs) ys = awaited-append p xs ys
awaited-append p (monitor_idle n ∷ xs) ys = awaited-append p xs ys
awaited-append p (process q ∷ xs) ys = omega (arith, awaited-append p xs ys)
awaited-append p (scoreboard_drain ∷ xs) ys = awaited-append p xs ys
awaited-append p (teardown_step t ∷ xs) ys = awaited-append p xs ys

-- The count behind the stage that ends.
abbrev settled : ℕ → Shutdown → ℕ
settled p s = count p (awaited s.waits) + count p s.processes

next_teardown-total : (p i : ℕ) (s : Shutdown) → total p (next_teardown i s) ≡ settled p s
unfolding next_teardown
next_teardown-total p i s = elim (Option-cases (get_elem? s.teardown i)) [
  | inl done ↦ simp (done, next_teardown) (omega arith)
  | inr (t, more) ↦
      simp (more, next_teardown) (omega (arith, awaited-append p s.waits (teardown_step t ∷ [])))
]

next_sequence-total : (p i : ℕ) (s : Shutdown) → total p (next_sequence i s) ≡ settled p s
unfolding next_sequence
next_sequence-total p i s = elim (Option-cases (get_elem? s.sequences i)) [
  | inl done ↦
      simp (done, next_sequence)
        (omega (arith, awaited-append p s.waits (clock_cycles s.delay ∷ [])))
  | inr (t, more) ↦
      simp (more, next_sequence) (omega (arith, awaited-append p s.waits (sequence t ∷ [])))
]

begin_loop-total : (p loops : ℕ) (s : Shutdown) → total p (begin_loop loops s) ≡ settled p s
unfolding begin_loop
begin_loop-total p zero s = next_teardown-total p 0 s
begin_loop-total p (suc loops) s = next_sequence-total p 0 (record s { loops = loops })

next_process-total :
    (p : ℕ) (procs : List ℕ) (s : Shutdown)
    → total p (next_process procs s) ≡ settled p s + count p procs
unfolding next_process
next_process-total p [] s = omega (arith, awaited-append p s.waits (scoreboard_drain ∷ []))
next_process-total p (q ∷ procs) s = omega (arith, awaited-append p s.waits (process q ∷ []))

next_monitor-total :
    (p : ℕ) (names : List String) (s : Shutdown) → total p (next_monitor names s) ≡ settled p s
unfolding next_monitor collect
next_monitor-total p [] s =
    omega (arith, next_process-total p s.processes (record s { processes = [] }))
next_monitor-total p (name ∷ names) s =
    omega (arith, awaited-append p s.waits (monitor_idle name ∷ []))

next_driver-total :
    (p : ℕ) (names : List String) (s : Shutdown) → total p (next_driver names s) ≡ settled p s
unfolding next_driver
next_driver-total p [] s = next_monitor-total p s.monitors s
next_driver-total p (name ∷ names) s =
    omega (arith, awaited-append p s.waits (driver_idle name ∷ []))

returned_at-total :
    (p : ℕ) (stage : Stage) (s : Shutdown)
    → s.stage ≡ stage
    → total p (returned_at stage s) ≡ settled p s + count p (pending stage)
unfolding returned_at
returned_at-total p (at_sequence i) s e = omega (arith, next_sequence-total p (suc i) s)
returned_at-total p at_delay s e = omega (arith, next_driver-total p s.drivers s)
returned_at-total p (at_driver names) s e = omega (arith, next_driver-total p names s)
returned_at-total p (at_monitor names) s e = omega (arith, next_monitor-total p names s)
returned_at-total p (at_process procs) s e = next_process-total p procs s
returned_at-total p at_drain s e = omega (arith, begin_loop-total p s.loops s)
returned_at-total p (at_teardown i) s e = omega (arith, next_teardown-total p (suc i) s)
returned_at-total p finished s e = simp e (omega arith)

step-total :
    (p : ℕ) (move : Move) (s : Shutdown)
    → total p (step move s) ≡ total p s + count p (registered (move ∷ []))
unfolding returned schedule register_process add_teardown
step-total p returns s = omega (arith, returned_at-total p s.stage s refl)
step-total p (schedules true task) s = omega arith
step-total p (schedules false task) s = omega arith
step-total p (registers q) s = omega (arith, count-append p s.processes (q ∷ []))
step-total p (adds_teardown coro) s = omega arith

registered-cons :
    (p : ℕ) (move : Move) (moves : List Move)
    → count p (registered (move ∷ moves))
      ≡ count p (registered (move ∷ [])) + count p (registered moves)
registered-cons p returns moves = omega arith
registered-cons p (schedules blocking task) moves = omega arith
registered-cons p (registers q) moves = omega arith
registered-cons p (adds_teardown coro) moves = omega arith

run-total :
    (p : ℕ) (moves : List Move) (s : Shutdown)
    → total p (run moves s) ≡ total p s + count p (registered moves)
run-total p [] s = omega arith
run-total p (move ∷ moves) s =
    omega
      (arith, run-total p moves (step move s), step-total p move s, registered-cons p move moves)

-- Whatever happens while a shutdown runs, each process that was registered, before it or meanwhile, is
-- awaited once, or is next in line in the loop that runs, or is still registered: none is awaited more
-- often than it was registered, and none is lost.
pub run-processes :
    (loops delay : ℕ) (components : List (String × Registered))
    (sequences processes teardown : List ℕ) (moves : List Move) (p : ℕ)
    → let s = run moves (close_down loops delay components sequences processes teardown) in
      count p (awaited s.waits) + count p (pending s.stage) + count p s.processes
      ≡ count p processes + count p (registered moves)
unfolding close_down
run-processes loops delay components sequences processes teardown moves p = omega (
  arith,
  run-total p moves (close_down loops delay components sequences processes teardown),
  begin_loop-total p loops _,
)

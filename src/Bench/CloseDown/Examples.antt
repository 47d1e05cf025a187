-- ===== src/Bench/CloseDown/Examples.antt =====
-- A shutdown of two loops over a small testbench.
use Prim.Native.String.{String}
use forastero.Prelude.{ℕ, ◌+◌, ◌≡◌, refl, List, [], ◌∷◌, true, false, count}
use forastero.Bench.Kinds.{Registered, driver, monitor}
use forastero.Bench.CloseDown
use forastero.Bench.CloseDown.{
  Wait, sequence, clock_cycles, driver_idle, monitor_idle, process, scoreboard_drain, teardown_step,
  Shutdown, finished, returned, close_down,
}
use forastero.Bench.CloseDown.Phases
use forastero.Bench.CloseDown.Order.{close_down-ends, expected}
use forastero.Bench.CloseDown.Processes.{
  Move, returns, schedules, registers, adds_teardown, run, registered, awaited, pending,
  run-processes,
}

program : Unit {0}
unfolding close_down returned CloseDown.returned_at CloseDown.next_driver CloseDown.next_monitor
    CloseDown.collect CloseDown.next_process CloseDown.begin_loop CloseDown.next_sequence
    CloseDown.next_teardown CloseDown.blocking_drivers CloseDown.blocking_monitors
    CloseDown.schedule CloseDown.register_process CloseDown.add_teardown
program = tt

abbrev components : List (String × Registered)
components = ("d", driver true) ∷ ("m", monitor true) ∷ ("x", driver false) ∷ []

-- A sequence that is scheduled while another is awaited is awaited too; the process is awaited in the
-- first loop alone.
run_moves :
    (run
      (schedules true 8 ∷ returns ∷ returns ∷ returns ∷ returns ∷ returns ∷ returns ∷ returns ∷ [])
      (close_down 2 100 components (7 ∷ []) (3 ∷ []) [])).waits
    ≡ sequence 7
      ∷ sequence 8
      ∷ clock_cycles 100
      ∷ driver_idle "d"
      ∷ monitor_idle "m"
      ∷ process 3
      ∷ scoreboard_drain
      ∷ sequence 7
      ∷ []
unfolding program
run_moves = refl

-- A process that is registered in the last loop behind its wait for processes is left registered.
run_late :
    let s =
      run
        (returns ∷ returns ∷ registers 5 ∷ returns ∷ returns ∷ [])
        (close_down 1 100 [] [] (3 ∷ []) []) in
    s.stage ≡ finished
unfolding program
run_late = refl

close_down-ends_example :
    let s = close_down 2 100 components (7 ∷ []) (3 ∷ []) (9 ∷ []) in
    (n : ℕ) × ((Phases.returns n s).stage ≡ finished)
    × ((Phases.returns n s).waits ≡ expected 2 100 components (7 ∷ []) (3 ∷ []) (9 ∷ []))
close_down-ends_example = close_down-ends 2 100 components (7 ∷ []) (3 ∷ []) (9 ∷ [])

abbrev moves : List Move
moves = schedules true 8 ∷ returns ∷ registers 3 ∷ returns ∷ returns ∷ adds_teardown 6 ∷ []

run-processes_example :
    let s = run moves (close_down 2 100 components (7 ∷ []) (3 ∷ []) []) in
    count 3 (awaited s.waits) + count 3 (pending s.stage) + count 3 s.processes
    ≡ count 3 (3 ∷ []) + count 3 (registered moves)
run-processes_example = run-processes 2 100 components (7 ∷ []) (3 ∷ []) [] moves 3

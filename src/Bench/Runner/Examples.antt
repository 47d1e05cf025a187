-- ===== src/Bench/Runner/Examples.antt =====
-- Runs of a test on a testbench of two components.
use forastero.Prelude.{ℕ, ◌≡◌, refl, [], ◌∷◌, none, some, true, false}
use forastero.Io.{initiator, responder, opposite}
use forastero.Scoreboard
use forastero.Scoreboard.{Scoreboard}
use forastero.Bench.Runner
use forastero.Bench.Runner.{
  Options, Built, Resets, reset_raised, Event, clear_components, not_registered, start_clock,
  drive_reset, initialise_io, clock_cycles, mark_ready, await_ready, run_test, items_remaining,
  completed, ran_out, passed, timed_out, components_missing, imposter_inner, missing,
}

program : Unit {0}
unfolding imposter_inner missing opposite Runner.prepare Runner.pulse Runner.check
    Runner.refuse_missing Runner.start Runner.reset Runner.initialise Runner.await_all
    Runner.run_inner Runner.busy_drivers Runner.postponed Runner.reports Runner.conclude
    Runner.finish Scoreboard.new Scoreboard.result
program = tt

abbrev options : Options
options = record {
  reset = true;
  timeout = some 1000;
  shutdown_loops = 2;
  shutdown_delay = 100;
  reset_init = true;
  reset_wait_during = 20;
  reset_wait_after = 0;
}

abbrev built : Built
built = record {
  created = 1 ∷ 2 ∷ [];
  components =
      record { name = "a_init"; ident = 1; role = responder; queued = some 3 }
      ∷ record { name = "x_mon"; ident = 2; role = initiator; queued = none }
      ∷ [];
  rst_active_high = true;
  clk_drive = true;
  postmortem = false;
}

abbrev all_return : Resets
all_return = record { first = none; second = none }

abbrev board : Scoreboard ℕ
board = Scoreboard.new false

-- A test with a reset starts the clock twice and resets the design twice.
run_passed : imposter_inner options (some built) all_return completed board ≡ (
  clear_components
      ∷ start_clock
      ∷ drive_reset true
      ∷ drive_reset true
      ∷ initialise_io "a_init" initiator
      ∷ initialise_io "x_mon" responder
      ∷ clock_cycles 20
      ∷ drive_reset false
      ∷ start_clock
      ∷ drive_reset true
      ∷ drive_reset true
      ∷ initialise_io "a_init" initiator
      ∷ initialise_io "x_mon" responder
      ∷ clock_cycles 20
      ∷ drive_reset false
      ∷ mark_ready
      ∷ await_ready "a_init"
      ∷ await_ready "x_mon"
      ∷ run_test 2 100
      ∷ [],
  some passed,
)
unfolding program
run_passed = refl

run_timed_out :
    imposter_inner (record options { reset = false }) (some built) all_return ran_out board ≡ (
      clear_components
          ∷ start_clock
          ∷ mark_ready
          ∷ await_ready "a_init"
          ∷ await_ready "x_mon"
          ∷ run_test 2 100
          ∷ items_remaining "a_init" 3
          ∷ [],
      some timed_out,
    )
unfolding program
run_timed_out = refl

-- The second reset raises as it starts.
run_reset_raised :
    (imposter_inner options
      (some built)
      (record { first = none; second = some 1 })
      completed
      board).1
    ≡ some reset_raised
unfolding program
run_reset_raised = refl

run_missing :
    imposter_inner options
      (some (record built { created = 1 ∷ 2 ∷ 3 ∷ [] }))
      all_return
      completed
      board
    ≡ (clear_components ∷ not_registered 3 ∷ [], some components_missing)
unfolding program
run_missing = refl

-- ===== src/Bench/Examples.antt =====
-- A small testbench, and the theorem about registration at a concrete input.
use forastero.Prelude.{ℕ, negsuc, ◌≡◌, refl, [], ◌∷◌, none, some, true, false}
use forastero.Channel
use forastero.Channel.{integer}
use forastero.Scoreboard
use forastero.Bench
use forastero.Bench.Kinds.{driver, monitor}
use forastero.Bench.{Bench, Arguments, Argument, new, register, settings, has_component}

program : Unit {0}
unfolding new register settings has_component Bench.register_with Bench.add_component Bench.merge
    Bench.no_unexpected Bench.has_process Scoreboard.new Scoreboard.attach Scoreboard.has_channel
    Scoreboard.make_channel Channel.effective_window Channel.new
program = tt

abbrev absent : {A : Type 0} → Argument A
absent = record { sb = none; old = none }

abbrev plain_arguments : Arguments ℕ
plain_arguments = record {
  scoreboard = true;
  queues = absent;
  filter = absent;
  timeout_ns = absent;
  polling_ns = absent;
  drain_policy = absent;
  match_window = absent;
  unexpected = [];
}

-- Both spellings of one argument are given.
run_both :
    settings (record plain_arguments { timeout_ns = record { sb = some 5; old = some (some 6) } })
    ≡ none
unfolding program
run_both = refl

abbrev one_driver : Bench ℕ
one_driver = record (new false) { components = ("x", driver true) ∷ [] }

run_known : register "x" (monitor true) plain_arguments one_driver ≡ none
unfolding program
run_known = refl

-- A match window of -1 is refused by the channel.
run_bad_window :
    register "y"
      (monitor true)
      (record plain_arguments {
        match_window = record { sb = some (integer (negsuc 0)); old = none };
      })
      one_driver
    ≡ none
unfolding program
run_bad_window = refl

-- ===== src/Bench/Runner/Outcomes.antt =====
-- forastero/bench.py, BaseBench.testcase: when a test passes, and what is reported.
use forastero.Prelude.{ℕ, List, [], ◌∷◌, Option, none, some, Bool, true, false}
use forastero.Scoreboard
use forastero.Scoreboard.{Scoreboard, Attached}
use forastero.Bench.Runner.{
  reset_raised, Ending, completed, raised, ran_out, Outcome, passed, components_missing,
  test_raised, timed_out, scoreboard_failed, hanging,
}

-- The outcome, from the unregistered components, the resets, the timeout, the end of the test, and the
-- verdict of the scoreboard.
table : List ℕ → Bool → Option ℕ → Ending → Bool → Outcome
table (c ∷ cs) returned timeout ending result = components_missing
table [] false timeout ending result = reset_raised
table [] true timeout completed true = passed
table [] true timeout completed false = scoreboard_failed
table [] true timeout raised result = test_raised
table [] true none ran_out result = hanging
table [] true (some t) ran_out result = timed_out

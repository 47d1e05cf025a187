-- ===== src/Scoreboard/Examples.antt =====
-- A small scoreboard, and the theorems about it at concrete inputs.
use forastero.Prelude.{
  ℕ, ◌*◌, ◌≡◌, ◌↔◌, refl, List, [], ◌∷◌, none, some, true, false, nat_eq, All, length,
}
use forastero.Queue
use forastero.Transaction.{Transaction, tx_eq}
use forastero.Channel
use forastero.Channel.{mon_and_ref}
use forastero.Channel.Drain
use forastero.Channel.Drain.{DrainState}
use forastero.Funnel
use forastero.Scoreboard
use forastero.Scoreboard.{Scoreboard, Settings, new, result, attach}
use forastero.Scoreboard.Result
use forastero.Scoreboard.Result.{
  Action, attached, captured, expected, turned, run, run-result_iff, EntryAllEqual,
}
use forastero.Scoreboard.Drain as Draining
use forastero.Scoreboard.Drain.{drain, IsClear, drain-none_iff}

program : Unit {0}
unfolding run new result attach Result.step Scoreboard.has_channel Scoreboard.make_channel
    Scoreboard.capture Scoreboard.push_reference Scoreboard.change Scoreboard.change_at
    Scoreboard.sample_kind Scoreboard.reference_kind Scoreboard.turn Scoreboard.turn_at
    Scoreboard.advance_kind Scoreboard.calls_since Scoreboard.mismatch_calls Scoreboard.base_of
    drain Draining.drain_channels Draining.drain_kind Drain.drain Drain.drain_at Drain.drain_waits
    Drain.drain_warnings Drain.monitor_depth Drain.reference_depth Funnel.advance Funnel.push_at
    Funnel.new Funnel.resume Funnel.start Funnel.acquire Funnel.round Funnel.conclude Funnel.pair_up
    Funnel.pop_last Funnel.sweep Funnel.any_pushed Funnel.register_all Funnel.add_queue
    Funnel.add_queues Funnel.has_queue Funnel.push_reference Funnel.reference_depth
    Funnel.total_level Channel.advance Channel.resume Channel.start Channel.acquire Channel.pick
    Channel.search Channel.conclude Channel.take_reference Channel.finish Channel.settle Channel.new
    Channel.sample Channel.push_monitor Channel.push_reference Channel.effective_window
    Channel.resume_monitor Channel.resume_reference Channel.scan Channel.bump Channel.forget
    Queue.push Queue.pop Queue.wait_for_not_empty Queue.on_push_event Queue.get_item Queue.level
    tx_eq
program = tt

abbrev tx : ℕ → ℕ → Transaction ℕ
tx i v = record { ident = i; timestamp = 10 * i; f_event = none; c_event = none; fields = v }

abbrev plain_settings : Settings ℕ
plain_settings = record {
  filter_fn = none;
  queues = [];
  timeout_ns = none;
  drain_policy = mon_and_ref;
  match_window = none;
}

abbrev funnel_settings : Settings ℕ
funnel_settings = record plain_settings { queues = "left" ∷ "right" ∷ [] }

-- One matching pair on a plain channel, one on a funnel; a second name "x" is refused.
abbrev session : List (Action ℕ)
session =
    attached "x" plain_settings
    ∷ attached "y" funnel_settings
    ∷ attached "x" funnel_settings
    ∷ captured "x" (tx 1 7)
    ∷ expected "x" none (tx 2 7)
    ∷ turned "x"
    ∷ captured "y" (tx 3 8)
    ∷ expected "y" (some "right") (tx 4 8)
    ∷ turned "y"
    ∷ []

run-session : result (run session (new false)) ≡ true
unfolding program
run-session = refl

run-session_channels : length (run session (new false)).channels ≡ 2
unfolding program
run-session_channels = refl

run_mismatch :
    result (
      run
        (captured "x" (tx 5 1) ∷ expected "x" none (tx 6 2) ∷ turned "x" ∷ [])
        (run session (new false)))
    ≡ false
unfolding program
run_mismatch = refl

run-result_iff_example :
    (result (run session (new false)) ≡ true) ↔ All EntryAllEqual (run session (new false)).channels
run-result_iff_example = run-result_iff false session

drain-none_iff_example :
    (drain (run session (new false)) ≡ none) ↔ All IsClear (run session (new false)).channels
drain-none_iff_example = drain-none_iff (run session (new false))

-- ===== src/Channel/Examples.antt =====
-- Small channels, and the theorems about them at concrete inputs.
use forastero.Prelude.{
  ℕ, ◌*◌, ◌≡◌, ◌↔◌, refl, List, [], ◌∷◌, none, some, true, false, arith, nat_eq, map, replicate,
}
use forastero.Queue
use forastero.Queue.{Queue}
use forastero.Transaction.{Transaction, tx_eq}
use forastero.Channel
use forastero.Channel.{
  Channel, Config, Report, Stage, idle, mon_and_ref, new, advance, push_monitor, push_reference,
}
use forastero.Channel.Moves.{view}
use forastero.Channel.Invariant.{advance-Advances}
use forastero.Channel.Pairing.{Advances}
use forastero.Channel.History.{Action, capture, expect, turn, captures, expects, run, step}
use forastero.Channel.Account.{Kept, run-new-Kept}
use forastero.Channel.Drain.{Warning, drain, drained, Settled, drain_settles}
use forastero.Channel.Progress.{reports_of, turns_pair_all, drain-drained_iff, HasFailed}

program : Unit {0}
unfolding new run step push_monitor push_reference advance Channel.resume Channel.start
    Channel.acquire Channel.pick Channel.search Channel.conclude Channel.take_reference
    Channel.finish Channel.settle Channel.resume_reference Channel.resume_monitor Channel.scan
    Channel.bump Channel.forget tx_eq Queue.push Queue.pop Queue.wait_for_not_empty Queue.get_item
    Queue.on_push_event Queue.level drain
program = tt

abbrev tx : ℕ → ℕ → Transaction ℕ
tx i v = record { ident = i; timestamp = 10 * i; f_event = none; c_event = none; fields = v }

abbrev strict : Config
strict = record {
  timeout_ns = some 50;
  drain_policy = mon_and_ref;
  match_window = 1;
  fail_fast = false;
}

abbrev windowed : Config
windowed = record strict { match_window = 3 }

abbrev session : List (Action (Transaction ℕ))
session =
    turn
    ∷ capture (tx 1 7)
    ∷ turn
    ∷ expect (tx 2 8)
    ∷ turn
    ∷ expect (tx 3 7)
    ∷ turn
    ∷ capture (tx 4 8)
    ∷ turn
    ∷ []

-- The second expected transaction matches the first captured one, and the other way round.
run-windowed :
    map (λ (r : Report (Transaction ℕ)). r.equal) (run windowed session new).reports
    ≡ true ∷ true ∷ []
unfolding program
run-windowed = refl

-- In strict order both pairs are mismatches.
run-strict :
    map (λ (r : Report (Transaction ℕ)). r.equal) (run strict session new).reports
    ≡ false ∷ false ∷ []
unfolding program
run-strict = refl

run-new-Kept_example :
    Kept windowed (omega arith) (captures session) (expects session) (run windowed session new)
run-new-Kept_example = run-new-Kept windowed (omega arith) session

-- The session's state once both transactions of the first pair wait in a strict channel.
abbrev loaded : Channel (Transaction ℕ)
loaded = record {
  q_mon = record { entries = tx 1 7 ∷ tx 4 8 ∷ []; on_push = none };
  q_ref = record { entries = tx 2 7 ∷ tx 3 9 ∷ tx 5 1 ∷ []; on_push = none };
  locked = false;
  matched = 0;
  mismatched = 0;
  residence = λ _. 0;
  stage = idle;
  reports = [];
  next_event = 0;
}

advance-Advances_example : Advances windowed (omega arith) (view loaded) (advance windowed loaded)
advance-Advances_example = advance-Advances windowed (omega arith) loaded refl

turns_pair_all_example :
    ((run strict (replicate 2 turn) loaded).q_mon.entries ≡ [])
    × ((run strict (replicate 2 turn) loaded).q_ref.entries ≡ tx 5 1 ∷ [])
    × ((run strict (replicate 2 turn) loaded).reports
        ≡ reports_of strict refl refl (tx 1 7 ∷ tx 4 8 ∷ []) (tx 2 7 ∷ tx 3 9 ∷ []))
turns_pair_all_example =
    turns_pair_all strict refl refl (tx 1 7 ∷ tx 4 8 ∷ []) (tx 2 7 ∷ tx 3 9 ∷ []) (tx 5 1 ∷ [])
      loaded refl (λ h. h) refl refl refl

drain_settles_example :
    Settled windowed (omega arith) (captures session) (expects session) (run windowed session new)
    × (◌≡◌ {A = List Warning} [] [])
unfolding program
drain_settles_example = drain_settles windowed (omega arith) session [] refl

drain-drained_iff_example :
    (drain mon_and_ref (new {T = Transaction ℕ}) ≡ drained [])
    ↔ (¬ HasFailed (new {T = Transaction ℕ}).stage)
unfolding new
drain-drained_iff_example = drain-drained_iff 1 new refl refl refl

-- With a window of 2 the same session ends in WindowResidenceError: the first expected
-- transaction is counted at each of the two searches for the first captured one.
run_overstayed :
    (run (record strict { match_window = 2 }) session new).stage
    ≡ Channel.failed Channel.window_residence
unfolding program
run_overstayed = refl

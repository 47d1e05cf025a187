-- ===== src/Driver/Examples.antt =====
-- A small driver, and the theorems about it at concrete inputs.
use forastero.Prelude.{
  ℕ, suc, ◌++◌, ◌≡◌, refl, List, [], ◌∷◌, none, some, true, false, nat_eq, length, replicate, inl,
  inr,
}
use forastero.Queue
use forastero.Transaction.{Transaction, post_drive}
use forastero.Driver
use forastero.Driver.{
  Driver, Item, Argument, one, many, no_transaction, yields, unsuitable, Stage, at_queue, driving,
  failed, type_error, new, busy, queued,
}
use forastero.Driver.Order.{enqueued_in, ended_in, all_in, pending}
use forastero.Driver.Account.{Accounted}
use forastero.Driver.Runs
use forastero.Driver.Runs.{
  Action, enqueues, turns, returns, raises, run, run-new-Accounted, run-drained,
}
use forastero.Driver.Progress.{returns-drain}

program : Unit {0}
unfolding new run Runs.step Driver.enqueue_object Driver.wrap Driver.push_item Driver.with_event
    Driver.set_on_enqueue Driver.returned Driver.advance Driver.resume Driver.round Driver.pick
    Driver.check_reset Driver.acquire Driver.begin Driver.finish Driver.fetch Driver.fetch_front
    Driver.set_if_equal Driver.is_pre Driver.is_post Driver.drive_returns Driver.drive_returns_at
    Driver.drive_raises Driver.drive_raises_at Queue.push Queue.on_push_event busy queued
    Driver.component_busy Queue.empty Queue.level
program = tt

abbrev tx : ℕ → Transaction ℕ
tx v = record { ident = v; timestamp = 0; f_event = none; c_event = none; fields = v }

abbrev calls : List (Action ℕ)
calls =
    enqueues (one (tx 7)) (some post_drive)
    ∷ enqueues (many (yields (tx 8) ∷ yields (tx 9) ∷ [])) none
    ∷ enqueues no_transaction none
    ∷ turns true 10
    ∷ turns false 20
    ∷ []

abbrev session : List (Action ℕ)
session = calls ++ returns false 30 ∷ returns false 40 ∷ returns false 50 ∷ []

run-session : all_in ended_in (run session new).published ≡ 7 ∷ 8 ∷ 9 ∷ []
unfolding program
run-session = refl

run-session_events : (run session new).events_set ≡ 1 ∷ []
unfolding program
run-session_events = refl

-- An object that is no transaction ends the loop.
run_unsuitable :
    (run {F = ℕ} (enqueues (many (unsuitable ∷ [])) none ∷ turns false 10 ∷ []) new).stage
    ≡ failed type_error
unfolding program
run_unsuitable = refl

-- The docstring of `busy` has it busy while a transaction is being driven; with the last one taken
-- from the queue it is not.
run_not_busy : busy (run (enqueues (one (tx 7)) none ∷ turns false 10 ∷ []) new) ≡ false
unfolding program
run_not_busy = refl

run-new-Accounted_example : Accounted (run session new)
run-new-Accounted_example = run-new-Accounted session

run-drained_example :
    all_in ended_in (run session new).published ≡ all_in enqueued_in (run session new).published
unfolding program
run-drained_example = run-drained session refl refl

returns-drain_example :
    let d' =
      run
        (replicate (suc (length (pending (run calls new).queue.entries))) (returns false 30))
        (run calls new) in
    (d'.stage ≡ at_queue) × (d'.queue.entries ≡ [])
unfolding program
returns-drain_example =
    returns-drain 30 (record (tx 7) { timestamp = 20; f_event = some post_drive; c_event = some 1 })
      (run calls new) refl (inr (1, refl)) ((inl refl, (inl refl, tt)), tt)

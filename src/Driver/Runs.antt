-- ===== src/Driver/Runs.antt =====
-- forastero/driver.py: a driver under any sequence of calls of `enqueue`, turns of its loop and
-- ends of `drive`.
use forastero.Prelude.{
  ℕ, ◌≡◌, refl, sym, ap, subst, ◌∙◌, inl, inr, List, [], ◌∷◌, ◌++◌, append-nil, Option, none, some,
  Bool, Option-cases,
}
use forastero.Queue
use forastero.Transaction.{DriverEvent}
use forastero.Driver.{
  Driver, Argument, at_queue, wrap, enqueue_object, advance, drive_returns, drive_raises, new,
}
use forastero.Driver.Order.{pending, begun_in, ended_in, enqueued_in, all_in}
use forastero.Driver.Account.{
  Accounted, resume-Accounted, drive_returns_at-Accounted, drive_raises_at-Accounted,
  push_item-Accounted,
}

-- A call of `enqueue`, a turn of the loop, or the end of a `drive`; with the level of the reset and
-- the time.
pub data Action (F : Type 0) : Type 0 where
  enqueues : Argument F → Option DriverEvent → Action F
  turns returns : Bool → ℕ → Action F
  raises : Action F

module _ {F : Type 0} where
  -- A call that raises leaves the driver as it is.
  abbrev after_call : Driver F → Option (Driver F × Option Queue.EventId) → Driver F
  after_call d none = d
  after_call d (some (d', evt)) = d'

  unfoldable pub step : Action F → Driver F → Driver F
  step (enqueues arg wait_for) d = after_call d (enqueue_object arg wait_for d)
  step (turns in_reset now) d = advance in_reset now d
  step (returns in_reset now) d = drive_returns in_reset now d
  step raises d = drive_raises d

  unfoldable pub run : List (Action F) → Driver F → Driver F
  unfolding step
  run [] d = d
  run (a ∷ more) d = run more (step a d)

  enqueue-Accounted :
      (arg : Argument F) (wait_for : Option DriverEvent) (d : Driver F)
      → Accounted d
      → Accounted (after_call d (enqueue_object arg wait_for d))
  unfolding enqueue_object
  enqueue-Accounted arg wait_for d a = elim (Option-cases (wrap arg wait_for d.next_event)) [
    | inl bail ↦ simp (bail, enqueue_object) a
    | inr (item, wrapped) ↦ simp (wrapped, enqueue_object) (push_item-Accounted wait_for item d a)
  ]

  step-Accounted : (a : Action F) (d : Driver F) → Accounted d → Accounted (step a d)
  unfolding step advance drive_returns drive_raises
  step-Accounted (enqueues arg wait_for) d h = enqueue-Accounted arg wait_for d h
  step-Accounted (turns in_reset now) d h = resume-Accounted in_reset now d.stage d refl h
  step-Accounted (returns in_reset now) d h =
      drive_returns_at-Accounted in_reset now d.stage d refl h
  step-Accounted raises d h = drive_raises_at-Accounted d.stage d refl h

  run-Accounted :
      (actions : List (Action F)) (d : Driver F) → Accounted d → Accounted (run actions d)
  unfolding run
  run-Accounted [] d h = h
  run-Accounted (a ∷ more) d h = run-Accounted more (step a d) (step-Accounted a d h)

  -- Over any interleaving of calls of `enqueue`, turns of the loop and ends of `drive`: what the
  -- driver has begun, then what it has in hand, then what its queue still has to give, iterables
  -- unrolled, is what was enqueued, in that order. What was begun has ended, in that order, except
  -- the transaction under way or, once the loop has failed, perhaps one more; the lock is held
  -- exactly while a transaction is under way, until the loop fails; and `stats.dequeued` counts
  -- those that have ended.
  pub run-new-Accounted : (actions : List (Action F)) → Accounted (run actions new)
  unfolding new
  run-new-Accounted actions =
      run-Accounted actions new (record { in_order = refl; ended = (refl, refl); counted = refl })

  -- When the driver waits at an empty queue, everything that was enqueued has been driven, in that
  -- order, each transaction once.
  pub run-drained :
      (actions : List (Action F))
      → (run actions new).stage ≡ at_queue
      → (run actions new).queue.entries ≡ []
      → all_in ended_in (run actions new).published ≡ all_in enqueued_in (run actions new).published
  run-drained actions waits none_left =
      let a : Accounted (record (run actions new) { stage = at_queue }) =
        subst (λ s. Accounted (record (run actions new) { stage = s })) waits
          (run-new-Accounted actions) in
      sym a.ended.1
      ∙ sym (append-nil _)
      ∙ sym (ap (λ l. all_in begun_in (run actions new).published ++ pending l) none_left)
      ∙ a.in_order

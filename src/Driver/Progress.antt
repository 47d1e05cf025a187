-- ===== src/Driver/Progress.antt =====
-- forastero/driver.py: how far a driver's loop gets with its queue.
use forastero.Prelude.{
  ℕ, zero, suc, ◌≡◌, ◌⊎◌, inl, inr, refl, sym, ap, List, [], ◌∷◌, ◌++◌, Option, none, some, false,
  length, All, replicate, arith, Bool-cases, subst,
}
use forastero.Queue
use forastero.Queue.Access.{on_push_event_registers}
use forastero.Transaction.{Transaction, DriverEvent}
use forastero.Driver.{
  Driver, Item, transaction, iterable, Yielded, yields, unsuitable, at_queue, driving, Fetch, got,
  exhausted, refused, fetch, fetch_front, with_event, begin, acquire, check_reset, pick, round,
  finish, set_if_equal, is_pre, is_post, drive_returns, drive_returns_at,
}
use forastero.Driver.Order.{pending, FetchKeeps, fetch-FetchKeeps}
use forastero.Driver.Runs.{returns, run, step}

module _ {F : Type 0} where
  -- A transaction that names an event of the driver has an event object to set.
  abbrev pub HasEvent : Transaction F → Type 0
  HasEvent t = (t.f_event ≡ none) ⊎ ((evt : Queue.EventId) × (t.c_event ≡ some evt))

  abbrev pub IsFineYield : Yielded F → Type 0
  IsFineYield (yields t) = HasEvent t
  IsFineYield unsuitable = ⊥

  -- An entry that the loop gets through.
  abbrev pub IsFine : Item F → Type 0
  IsFine (transaction t) = HasEvent t
  IsFine (iterable items wait_for) = All IsFineYield items

  abbrev FetchFine : Fetch F → Type 0
  FetchFine (got t rest) = HasEvent t × All IsFine rest
  FetchFine exhausted = Unit
  FetchFine (refused rest) = ⊥

  with_event-HasEvent :
      (wait_for : Option DriverEvent) (evt : ℕ) (t : Transaction F)
      → HasEvent t
      → HasEvent (with_event wait_for evt t)
  unfolding with_event
  with_event-HasEvent none evt t h = h
  with_event-HasEvent (some w) evt t h = inr (evt, refl)

  fetch-FetchFine :
      (evt : ℕ) (entries : List (Item F)) → All IsFine entries → FetchFine (fetch evt entries)
  unfolding fetch fetch_front
  fetch-FetchFine evt [] h = tt
  fetch-FetchFine evt (transaction t ∷ rest) (h, hs) = (h, hs)
  fetch-FetchFine evt (iterable [] w ∷ rest) (h, hs) = fetch-FetchFine evt rest hs
  fetch-FetchFine evt (iterable (yields t ∷ items) w ∷ rest) ((h, more), hs) =
      (with_event-HasEvent w evt t h, (more, hs))
  fetch-FetchFine evt (iterable (unsuitable ∷ items) w ∷ rest) ((h, more), hs) = absurd h

  set_pre :
      (t : Transaction F) (events : List Queue.EventId)
      → HasEvent t
      → (more : List Queue.EventId) × (set_if_equal (is_pre t.f_event) t.c_event events ≡ some more)
  unfolding set_if_equal is_pre
  set_pre t events (inl quiet) = (events, rw quiet refl)
  set_pre t events (inr (evt, has)) = elim (Bool-cases (is_pre t.f_event)) [
    | inl pre ↦ (events ++ evt ∷ [], rw (pre, has) refl)
    | inr other ↦ (events, rw other refl)
  ]

  set_post :
      (t : Transaction F) (events : List Queue.EventId)
      → HasEvent t
      → (more : List Queue.EventId) × (set_if_equal (is_post t.f_event) t.c_event events
          ≡ some more)
  unfolding set_if_equal is_post
  set_post t events (inl quiet) = (events, rw quiet refl)
  set_post t events (inr (evt, has)) = elim (Bool-cases (is_post t.f_event)) [
    | inl post ↦ (events ++ evt ∷ [], rw (post, has) refl)
    | inr other ↦ (events, rw other refl)
  ]

  -- `drive` is under way with `n` transactions to come behind it, or all is done.
  abbrev pub Drives : ℕ → Driver F → Type 0
  Drives n d =
      ((t : Transaction F) × (d.stage ≡ driving t)
        × HasEvent t
        × All IsFine d.queue.entries
        × (suc (length (pending d.queue.entries)) ≡ n))
      ⊎ ((d.stage ≡ at_queue) × (d.queue.entries ≡ []) × (n ≡ 0))

  round-Drives :
      (now : ℕ) (d : Driver F)
      → d.locked ≡ false
      → All IsFine d.queue.entries
      → Drives (length (pending d.queue.entries)) (round false now d)
  unfolding round pick check_reset acquire begin
  round-Drives now d l fine =
      picked _ (fetch-FetchFine d.next_event d.queue.entries fine)
        (fetch-FetchKeeps d.next_event d.queue.entries)
    where
      picked :
          (r : Fetch F)
          → FetchFine r
          → FetchKeeps d.queue.entries r
          → Drives (length (pending d.queue.entries)) (pick false now r d)
      picked (got t rest) (has, fine') kept =
          let (events, set) = set_pre t d.events_set has in
          simp (l, set, pick, check_reset, acquire, begin)
            (inl (_, refl, has, fine', ap length (sym kept)))
      picked exhausted _ kept = inr (
        refl,
        (on_push_event_registers d.next_event (record (d.queue) { entries = [] })).0,
        ap length kept,
      )
      picked (refused rest) bad kept = absurd bad

  finish-Drives :
      (now : ℕ) (t : Transaction F) (d : Driver F)
      → HasEvent t
      → All IsFine d.queue.entries
      → Drives (length (pending d.queue.entries)) (finish false now t d)
  unfolding finish
  finish-Drives now t d has fine =
      let (events, set) = set_post t d.events_set has in
      simp (set, finish) (round-Drives now _ refl fine)

  returns-at_queue :
      (now n : ℕ) (d : Driver F)
      → Drives n d
      → ((run (replicate n (returns false now)) d).stage ≡ at_queue)
        × ((run (replicate n (returns false now)) d).queue.entries ≡ [])
  unfolding run step drive_returns
  returns-at_queue now zero d (inl (t, under, has, fine, h)) = cc
  returns-at_queue now zero d (inr (waits, none_left, h)) = (waits, none_left)
  returns-at_queue now (suc n) d (inl (t, under, has, fine, h)) = returns-at_queue now n _ (
      subst (λ s. Drives n (drive_returns_at false now s d)) (sym under)
        (unfold drive_returns_at in
          subst (λ m. Drives m (finish false now t d)) (omega (arith, h))
            (finish-Drives now t d has fine)))
  returns-at_queue now (suc n) d (inr (waits, none_left, h)) = cc

  -- With the reset released, a transaction under way and only fine entries in the queue, the loop
  -- stands at its wait on an empty queue behind as many returns of `drive` as there are transactions
  -- to come and the one under way: no entry holds it up, and none is left.
  pub returns-drain :
      (now : ℕ) (t : Transaction F) (d : Driver F)
      → d.stage ≡ driving t
      → HasEvent t
      → All IsFine d.queue.entries
      → let d' = run (replicate (suc (length (pending d.queue.entries))) (returns false now)) d in
        (d'.stage ≡ at_queue) × (d'.queue.entries ≡ [])
  returns-drain now t d under has fine = returns-at_queue now _ d (inl (t, under, has, fine, refl))

-- ===== src/Driver.antt =====
-- forastero/driver.py and forastero/component.py: a driver's queue and its loop.
--
-- The coroutine `_driver_loop` is cut at its awaits: `Stage` says where it waits, and `advance`
-- runs it up to the next await. What `drive` does to the interface belongs to a child class: its
-- return and an exception of it are steps of their own, `drive_returns` and `drive_raises`. What
-- subscribers do on a publication comes as later steps.
pub mod Order
pub mod Account
pub mod Runs
pub mod Progress
mod Examples
use forastero.Prelude.{
  ℕ, ◌+◌, List, [], ◌∷◌, ◌++◌, Option, none, some, Bool, true, false, not, ◌&&◌, if◌then◌else◌,
  ◌==◌, length,
}
use forastero.Queue
use forastero.Queue.{Queue, EventId, done, raised, waiting}
use forastero.Transaction.{Transaction, DriverEvent, enqueue, pre_drive, post_drive}

-- What an iterable yields: a transaction, or an object that is none.
pub data Yielded (F : Type 0) : Type 0 where
  yields : Transaction F → Yielded F
  unsuitable : Yielded F

-- An entry of the queue. An EnqueuedIterable keeps its iterator, which is what is left of it.
pub data Item (F : Type 0) : Type 0 where
  transaction : Transaction F → Item F
  iterable : List (Yielded F) → Option DriverEvent → Item F

-- What `enqueue` is given.
pub data Argument (F : Type 0) : Type 0 where
  one : Transaction F → Argument F
  many : List (Yielded F) → Argument F
  no_transaction : Argument F

pub data Failure : Type 0 where
  type_error attribute_error drive_error : Failure

pub data Stage (F : Type 0) : Type 0 where
  at_queue : Stage F
  at_reset at_lock driving : Transaction F → Stage F
  failed : Failure → Stage F

pub record Driver (F : Type 0) : Type 0 where
  pub queue : Queue (Item F)
  pub locked : Bool
  pub dequeued : ℕ
  pub stage : Stage F
  pub published : List (DriverEvent × Item F)
  pub events_set : List EventId
  pub next_event : EventId

-- `if f_event is DriverEvent.ENQUEUE`.
unfoldable pub set_on_enqueue : Option DriverEvent → EventId → List EventId → List EventId
set_on_enqueue (some enqueue) evt events = events ++ evt ∷ []
set_on_enqueue _ evt events = events

unfoldable pub returned : Option DriverEvent → EventId → Option EventId
returned none evt = none
returned (some wait_for) evt = some evt

-- `if obj._f_event is …: obj._c_event.set()`. `none` stands for the AttributeError.
unfoldable pub set_if_equal : Bool → Option EventId → List EventId → Option (List EventId)
set_if_equal false c_event events = some events
set_if_equal true none events = none
set_if_equal true (some evt) events = some (events ++ evt ∷ [])

unfoldable pub is_pre : Option DriverEvent → Bool
is_pre (some pre_drive) = true
is_pre _ = false

unfoldable pub is_post : Option DriverEvent → Bool
is_post (some post_drive) = true
is_post _ = false

module _ {F : Type 0} where
  -- Behind the first clock edge, with the queue empty and the loop at its first wait.
  unfoldable pub new : Driver F
  new = record {
    queue = record { entries = []; on_push = some 0 };
    locked = false;
    dequeued = 0;
    stage = at_queue;
    published = [];
    events_set = [];
    next_event = 1;
  }

  -- `Component.busy`, and what the driver makes of it.
  unfoldable pub component_busy : Driver F → Bool
  component_busy d = d.locked

  unfoldable pub busy : Driver F → Bool
  busy d = not (Queue.empty d.queue) && component_busy d

  unfoldable pub queued : Driver F → ℕ
  queued d = Queue.level d.queue

  -- The two assignments to a transaction that is to have an event.
  unfoldable pub with_event : Option DriverEvent → EventId → Transaction F → Transaction F
  with_event none evt t = t
  with_event (some wait_for) evt t = record t { f_event = some wait_for; c_event = some evt }

  -- The isinstance tests of `enqueue`. `none` stands for the TypeError.
  unfoldable pub wrap : Argument F → Option DriverEvent → EventId → Option (Item F)
  wrap (one t) wait_for evt = some (transaction (with_event wait_for evt t))
  wrap (many items) wait_for evt = some (iterable items wait_for)
  wrap no_transaction wait_for evt = none

  unfoldable pub push_item : Option DriverEvent → Item F → Driver F → Driver F
  push_item wait_for item d = record d {
    queue = (Queue.push item d.queue).0;
    published = d.published ++ (enqueue, item) ∷ [];
    events_set = set_on_enqueue wait_for d.next_event d.events_set;
    next_event = d.next_event + 1;
  }

  -- `enqueue`, with the event that it returns.
  unfoldable pub enqueue_object :
      Argument F → Option DriverEvent → Driver F → Option (Driver F × Option EventId)
  enqueue_object arg wait_for d = elim (wrap arg wait_for d.next_event) [
    | none ↦ none
    | some item ↦ some (push_item wait_for item d, returned wait_for d.next_event)
  ]

-- How `_get_from_queue` ends on the queue's entries, from its peek on.
pub data Fetch (F : Type 0) : Type 0 where
  got : Transaction F → List (Item F) → Fetch F
  exhausted : Fetch F
  refused : List (Item F) → Fetch F

module _ {F : Type 0} where
  unfoldable pub fetch_front :
      Option DriverEvent → EventId → List (Yielded F) → List (Item F) → Fetch F → Fetch F
  fetch_front wait_for evt [] rest later = later
  fetch_front wait_for evt (yields t ∷ items) rest later =
      got (with_event wait_for evt t) (iterable items wait_for ∷ rest)
  fetch_front wait_for evt (unsuitable ∷ items) rest later =
      refused (iterable items wait_for ∷ rest)

  -- Both loops of `_get_from_queue`: an exhausted iterable is popped, and the next entry is tried.
  unfoldable pub fetch : EventId → List (Item F) → Fetch F
  fetch evt [] = exhausted
  fetch evt (transaction t ∷ rest) = got t rest
  fetch evt (iterable items wait_for ∷ rest) = fetch_front wait_for evt items rest (fetch evt rest)

  abbrev fail : Failure → Driver F → Driver F
  fail f d = record d { stage = failed f }

  -- From the timestamp up to `await self.drive(obj)`.
  unfoldable pub begin : ℕ → Transaction F → Driver F → Driver F
  begin now t d =
      let t' = record t { timestamp = now } in
      let told = record d { published = d.published ++ (pre_drive, transaction t') ∷ [] } in
      elim (set_if_equal (is_pre t.f_event) t.c_event d.events_set) [
        | none ↦ fail attribute_error told
        | some events ↦ record told { events_set = events; stage = driving t' }
      ]

  unfoldable pub acquire : ℕ → Transaction F → Driver F → Driver F
  acquire now t d =
      if d.locked then record d { stage = at_lock t } else begin now t (record d { locked = true })

  -- The loop that waits for the end of reset.
  unfoldable pub check_reset : Bool → ℕ → Transaction F → Driver F → Driver F
  check_reset in_reset now t d =
      if in_reset then record d { stage = at_reset t } else acquire now t d

  unfoldable pub pick : Bool → ℕ → Fetch F → Driver F → Driver F
  pick in_reset now (got t rest) d =
      check_reset in_reset now t
        (record d { queue = record (d.queue) { entries = rest }; next_event = d.next_event + 1 })
  pick in_reset now exhausted d = record d {
    queue = (Queue.on_push_event d.next_event (record (d.queue) { entries = [] })).0;
    stage = at_queue;
    next_event = d.next_event + 1;
  }
  pick in_reset now (refused rest) d =
      fail type_error (record d { queue = record (d.queue) { entries = rest } })

  -- One round of `while True`.
  unfoldable pub round : Bool → ℕ → Driver F → Driver F
  round in_reset now d = pick in_reset now (fetch d.next_event d.queue.entries) d

  -- Behind `await self.drive(obj)`, up to the next await.
  unfoldable pub finish : Bool → ℕ → Transaction F → Driver F → Driver F
  finish in_reset now t d =
      let told = record d {
        dequeued = d.dequeued + 1;
        published = d.published ++ (post_drive, transaction t) ∷ [];
      } in
      elim (set_if_equal (is_post t.f_event) t.c_event d.events_set) [
        | none ↦ fail attribute_error told
        | some events ↦ round in_reset now (record told { events_set = events; locked = false })
      ]

  unfoldable pub resume : Bool → ℕ → Stage F → Driver F → Driver F
  resume in_reset now at_queue d = elim d.queue.on_push [ none ↦ round in_reset now d | some _ ↦ d ]
  resume in_reset now (at_reset t) d = check_reset in_reset now t d
  resume in_reset now (at_lock t) d = acquire now t d
  resume in_reset now (driving t) d = d
  resume in_reset now (failed f) d = d

  -- The loop runs to its next await, if what it waits for other than `drive` has happened.
  unfoldable pub advance : Bool → ℕ → Driver F → Driver F
  advance in_reset now d = resume in_reset now d.stage d

  unfoldable pub drive_returns_at : Bool → ℕ → Stage F → Driver F → Driver F
  drive_returns_at in_reset now (driving t) d = finish in_reset now t d
  drive_returns_at in_reset now _ d = d

  unfoldable pub drive_returns : Bool → ℕ → Driver F → Driver F
  drive_returns in_reset now d = drive_returns_at in_reset now d.stage d

  unfoldable pub drive_raises_at : Stage F → Driver F → Driver F
  drive_raises_at (driving t) d = fail drive_error d
  drive_raises_at _ d = d

  unfoldable pub drive_raises : Driver F → Driver F
  drive_raises d = drive_raises_at d.stage d

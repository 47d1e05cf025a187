-- ===== src/Queue.antt =====
-- forastero/queue.py: the queue that channels and drivers are built on.
--
-- A `Queue` keeps its entries oldest first, and the event that the next push fires. An event is
-- the handle of a cocotb `Event`; a handle to use for a new one is an argument of the calls that
-- may create it. A coroutine is cut at its awaits: the first half ends in an `Outcome`, and the
-- other half is a function of its own.
pub mod Access
use forastero.Prelude.{
  ℕ, List, [], ◌∷◌, ◌++◌, Option, none, some, Bool, ◌==◌, length, get_elem?, erase_idx,
  if◌then◌else◌,
}

abbrev pub EventId : Type 0
EventId = ℕ

pub data QueueError : Type 0 where
  queue_empty index_error : QueueError

-- How a call that may await ends: with a value, with an exception, or waiting for an event.
pub data Outcome (S A : Type 0) : Type 0 where
  done : S → A → Outcome S A
  raised : QueueError → Outcome S A
  waiting : S → EventId → Outcome S A

pub record Queue (A : Type 0) : Type 0 where
  pub entries : List A
  pub on_push : Option EventId

module _ {A : Type 0} where
  unfoldable pub new : Queue A
  new = record { entries = []; on_push = none }

  unfoldable pub level : Queue A → ℕ
  level q = length q.entries

  unfoldable pub empty : Queue A → Bool
  empty q = length q.entries == 0

  unfoldable pub get_item : Queue A → ℕ → Option A
  get_item q key = get_elem? q.entries key

  -- The event of the next push, created on first use.
  unfoldable pub on_push_event : EventId → Queue A → Queue A × EventId
  on_push_event fresh q = elim q.on_push [
    | none ↦ (record q { on_push = some fresh }, fresh)
    | some evt ↦ (q, evt)
  ]

  -- The second part is the event that the push sets.
  unfoldable pub push : A → Queue A → Queue A × Option EventId
  push x q = (record { entries = q.entries ++ x ∷ []; on_push = none }, q.on_push)

  -- `self._entries.pop(index)`.
  unfoldable pub pop_entry : ℕ → Queue A → Outcome (Queue A) A
  pop_entry index q = elim (get_elem? q.entries index) [
    | none ↦ raised index_error
    | some x ↦ done (record q { entries = erase_idx q.entries index }) x
  ]

  unfoldable pub wait : EventId → Queue A → Queue A × EventId
  unfolding on_push_event
  wait fresh q = on_push_event fresh q

  -- `pop` up to its await. A waiter goes on with `pop_entry` when its event is set.
  unfoldable pub pop : EventId → ℕ → Queue A → Outcome (Queue A) A
  unfolding wait pop_entry
  pop fresh index q =
      if length q.entries == 0
      then (let (q', evt) = wait fresh q in waiting q' evt)
      else pop_entry index q

  unfoldable pub wait_for_not_empty : EventId → Queue A → Outcome (Queue A) (Unit {0})
  unfolding level wait
  wait_for_not_empty fresh q =
      if level q == 0 then (let (q', evt) = wait fresh q in waiting q' evt) else done q tt

  unfoldable pub peek : Queue A → Outcome (Queue A) A
  peek q = elim q.entries [ [] ↦ raised queue_empty | x ∷ xs ↦ done q x ]

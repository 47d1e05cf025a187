-- ===== src/Arbiter.antt =====
-- forastero/sequence.py, class SeqArbiter: schedules queued sequences onto free locks.
--
-- `Store` gives each lock's state, and `known` is what SeqLock.get_all_locks lists. The order in
-- which the queue is tried is an argument: the source shuffles it. A set of locks is a list that
-- is only tested for membership. Entries that are queued while `_manage` awaits a lock are added
-- at the end of the queue, which changes no index of the pass under way; they are an argument.
pub mod Claims
pub mod Granted
pub mod Passes
pub mod Rounds
pub mod Progress
mod Examples
use forastero.Prelude.{
  ℕ, zero, suc, ◌+◌, List, [], ◌∷◌, ◌++◌, Option, none, some, Bool, true, false, not, ◌&&◌, ◌||◌,
  ◌==◌, if◌then◌else◌, get_elem?, elem, length,
}
use forastero.Queue.{EventId}
use forastero.SeqLock.{SeqLock, ContextId, LockId, Acquire, acquired, blocked}
use forastero.SeqLock

abbrev pub Store : Type 0
Store = LockId → SeqLock

unfoldable pub update : Store → LockId → SeqLock → Store
update s l v j = if j == l then v else s j

pub record Entry : Type 0 where
  pub ctx : ContextId
  pub locks : List LockId
  pub evt : EventId

-- `{x for x in SeqLock.get_all_locks() if not x.locked}`.
unfoldable pub available : Store → List LockId → List LockId
available s [] = []
available s (l ∷ known) = let rest = available s known in if (s l).locked then rest else l ∷ rest

-- `available.remove(lock)`, of a set.
unfoldable pub remove : LockId → List LockId → List LockId
remove l [] = []
remove l (x ∷ xs) = let rest = remove l xs in if x == l then rest else x ∷ rest

-- `not set(locks).difference(available)`.
unfoldable pub all_in : List LockId → List LockId → Bool
all_in [] free = true
all_in (l ∷ locks) free = elem l free && all_in locks free

pub data Claim : Type 0 where
  claimed : List LockId → Store → Claim
  key_error stalled : Store → Claim

pub data Pass : Type 0 where
  passed : List LockId → Store → List ℕ → Pass
  crashed : Store → Pass

module _ (callable : Bool) where
  -- The loop that claims an entry's locks: acquire each, and take it out of the available ones.
  unfoldable pub claim : ContextId → List LockId → List LockId → Store → Claim
  claim ctx [] free s = claimed free s
  claim ctx (l ∷ locks) free s = elim (SeqLock.acquire callable ctx (s l)) [
    | blocked ↦ stalled s
    | acquired v ↦ elim (elem l free) [
      | true ↦ claim ctx locks (remove l free) (update s l v)
      | false ↦ key_error (update s l v)
    ]
  ]

  -- An exception of the claim ends the pass, and so does a claim that leaves no lock available.
  unfoldable pub after_claim : Claim → (List LockId → Store → List ℕ → Pass) → List ℕ → Pass
  after_claim (claimed free s) next scheduled = elim (length free == 0) [
    | true ↦ passed free s scheduled
    | false ↦ next free s scheduled
  ]
  after_claim (key_error s) next scheduled = crashed s
  after_claim (stalled s) next scheduled = crashed s

  -- The `for idx in order` loop of `_manage`. The last part of the result is `scheduled`.
  unfoldable pub pass : List Entry → List ℕ → List LockId → Store → List ℕ → Pass
  pass queue [] free s scheduled = passed free s scheduled
  pass queue (idx ∷ order) free s scheduled = elim (get_elem? queue idx) [
    | none ↦ crashed s
    | some entry ↦ elim (all_in entry.locks free) [
      | false ↦ pass queue order free s scheduled
      | true ↦
          after_claim (claim entry.ctx entry.locks free s) (pass queue order)
            (scheduled ++ idx ∷ [])
    ]
  ]

-- `[x for i, x in enumerate(self._queue) if i not in scheduled]`, counting from `i`.
unfoldable pub prune : ℕ → List ℕ → List Entry → List Entry
prune i scheduled [] = []
prune i scheduled (entry ∷ queue) =
    let rest = prune (suc i) scheduled queue in if elem i scheduled then rest else entry ∷ rest

-- Where `_manage` waits: for a queued sequence, for an unlock (because no lock is free), for either
-- (because nothing could be scheduled), or not at all. The flag says that UNLOCKED was published
-- since the wait began.
pub data Stage : Type 0 where
  at_queue : Stage
  at_unlock : Bool → Stage
  at_either : Bool → Stage
  running : Stage
  ended : Stage

pub record Arbiter : Type 0 where
  pub queue : List Entry
  pub evt_queue : Bool
  pub stage : Stage
  pub store : Store

-- `queue_for` up to its await.
unfoldable pub queue_for : Entry → Arbiter → Arbiter
queue_for entry a = record a { queue = a.queue ++ entry ∷ []; evt_queue = true }

abbrev notify : Stage → Stage
notify (at_unlock _) = at_unlock true
notify (at_either _) = at_either true
notify s = s

-- SeqLock.release on a lock of the store, with the event that it publishes.
unfoldable pub release : Bool → ContextId → LockId → Arbiter → Option Arbiter
release callable ctx l a = elim (SeqLock.release callable ctx (a.store l)) [
  | SeqLock.unlocked v ↦ some (record a { store = update a.store l v; stage = notify a.stage })
  | SeqLock.ignored ↦ some a
  | SeqLock.illegal ↦ none
]

module _ (callable : Bool) (known : List LockId) where
  -- Behind a pass: prune what was scheduled, or wait if nothing was.
  unfoldable pub conclude : List Entry → Arbiter → Pass → Arbiter
  conclude arrivals a (crashed s) = record a { stage = ended; store = s }
  conclude arrivals a (passed _ s []) = record a {
    evt_queue = false;
    stage = at_either false;
    store = s;
  }
  conclude arrivals a (passed _ s (idx ∷ more)) = record a {
    queue = prune 0 (idx ∷ more) a.queue ++ arrivals;
    stage = running;
    store = s;
  }

  unfoldable pub schedule : List ℕ → List Entry → List LockId → Arbiter → Arbiter
  schedule order arrivals [] a = record a { stage = at_unlock false }
  schedule order arrivals (l ∷ free) a =
      conclude arrivals a (pass callable a.queue order (l ∷ free) a.store [])

  -- One round of `while self._queue`, tried in the given order, with the entries that arrive
  -- during its awaits.
  unfoldable pub round : List ℕ → List Entry → Arbiter → Arbiter
  round order arrivals a =
      if length a.queue == 0
      then record a { evt_queue = false; stage = at_queue }
      else schedule order arrivals (available a.store known) a

  unfoldable pub wake : List ℕ → List Entry → Stage → Arbiter → Arbiter
  wake order arrivals at_queue a = if a.evt_queue then round order arrivals a else a
  wake order arrivals (at_unlock fired) a = if fired then round order arrivals a else a
  wake order arrivals (at_either fired) a =
      if fired || a.evt_queue then round order arrivals a else a
  wake order arrivals running a = round order arrivals a
  wake order arrivals ended a = a

  -- `_manage` runs to its next await, if what it waits for has happened.
  unfoldable pub manage : List ℕ → List Entry → Arbiter → Arbiter
  manage order arrivals a = wake order arrivals a.stage a

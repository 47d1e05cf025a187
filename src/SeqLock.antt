-- ===== src/SeqLock.antt =====
-- forastero/sequence.py, class SeqLock: a cocotb Lock that knows which sequence holds it, and the
-- two class-wide tables of locks.
--
-- Contexts, components and locks are numbers. cocotb's `Lock.locked` is an attribute before 1.8
-- and a method from 1.8 on; where the source tests it without a call, the test is true whatever
-- the lock's state if it is a method. `callable` says which of the two it is.
pub mod Laws
pub mod Requests
mod Examples
use forastero.Prelude.{
  ℕ, ◌+◌, List, [], ◌∷◌, ◌++◌, Option, none, some, Bool, true, false, ◌&&◌, ◌||◌, map, length, ◌==◌,
  if◌then◌else◌, Eq, ◌=?=◌, nat_eq, string_eq,
}
use Prim.Native.String.{String}

abbrev pub ContextId : Type 0
ContextId = ℕ

abbrev pub LockId : Type 0
LockId = ℕ

pub record SeqLock : Type 0 where
  pub locked : Bool
  pub locked_by : Option ContextId

-- `self._locked_by is context`.
abbrev pub held_by : ContextId → SeqLock → Bool
held_by ctx l = elim l.locked_by [ none ↦ false | some c ↦ c == ctx ]

abbrev pub free_lock : SeqLock
free_lock = record { locked = false; locked_by = none }

abbrev pub owned : ContextId → SeqLock
owned ctx = record { locked = true; locked_by = some ctx }

pub data Acquire : Type 0 where
  acquired : SeqLock → Acquire
  blocked : Acquire

pub data Release : Type 0 where
  unlocked : SeqLock → Release
  ignored : Release
  illegal : Release

module _ (callable : Bool) where
  -- The value of `self._lock.locked` in a test that does not call it.
  unfoldable pub truthy : SeqLock → Bool
  truthy l = callable || l.locked

  unfoldable pub acquire : ContextId → SeqLock → Acquire
  unfolding truthy
  acquire ctx l =
      if truthy l && held_by ctx l
      then acquired l
      else if l.locked
      then blocked
      else acquired (owned ctx)

  -- `unlocked` also publishes SeqContextEvent.UNLOCKED; `illegal` is the AssertionError.
  unfoldable pub release : ContextId → SeqLock → Release
  unfolding truthy
  release ctx l =
      if truthy l then (if held_by ctx l then unlocked free_lock else illegal) else ignored

-- The class variables _COMPONENT_LOCKS and _NAMED_LOCKS, and the number of the next new lock.
pub record Registry : Type 0 where
  pub component_locks : List (ℕ × LockId)
  pub named_locks : List (String × LockId)
  pub next_lock : LockId

module _ {K : Type 0} ⦃e : Eq K⦄ where
  unfoldable pub find : K → List (K × LockId) → Option LockId
  find k [] = none
  find k ((j, l) ∷ rest) = if j =?= k then some l else find k rest

unfoldable pub get_component_lock : ℕ → Registry → Registry × LockId
unfolding find
get_component_lock comp r = elim (find comp r.component_locks) [
  | some l ↦ (r, l)
  | none ↦ (
    record r {
      component_locks = r.component_locks ++ (comp, r.next_lock) ∷ [];
      next_lock = r.next_lock + 1;
    },
    r.next_lock,
  )
]

unfoldable pub get_named_lock : String → Registry → Registry × LockId
unfolding find
get_named_lock name r = elim (find name r.named_locks) [
  | some l ↦ (r, l)
  | none ↦ (
    record r {
      named_locks = r.named_locks ++ (name, r.next_lock) ∷ [];
      next_lock = r.next_lock + 1;
    },
    r.next_lock,
  )
]

unfoldable pub get_all_locks : Registry → List LockId
get_all_locks r = map (λ p. p.1) r.component_locks ++ map (λ p. p.1) r.named_locks

unfoldable pub count_all_locks : Registry → ℕ
count_all_locks r = length r.component_locks + length r.named_locks

-- ===== src/SeqContext.antt =====
-- forastero/sequence.py, classes SeqContext and SeqProxy: what a running sequence does with
-- locks, and what it sees and drives of a component through its proxy.
--
-- The locks are those of the arbiter's store. `callable` is that of SeqLock: whether the test
-- `lock.locked`, which the source does not call, is true of every lock.
pub mod Laws
pub mod Ids
mod Examples
use forastero.Prelude.{
  ℕ, ◌+◌, List, [], ◌∷◌, ◌++◌, Option, none, some, Bool, true, false, not, ◌&&◌, ◌||◌,
  if◌then◌else◌,
}
use forastero.SeqLock
use forastero.SeqLock.{SeqLock, ContextId, LockId, Registry, held_by, get_component_lock, truthy}
use forastero.Arbiter.{Store, update}

-- What `lock` and `release` are given: a proxy of a component, or a lock.
pub data Lockable : Type 0 where
  proxy : ℕ → Lockable
  lock : LockId → Lockable

unfoldable pub resolve : Lockable → Registry → Registry × LockId
unfolding get_component_lock
resolve (proxy comp) r = get_component_lock comp r
resolve (lock l) r = (r, l)

-- The list `need` of `lock`.
unfoldable pub resolve_all : List Lockable → Registry → Registry × List LockId
resolve_all [] r = (r, [])
resolve_all (x ∷ xs) r =
    let (r', l) = resolve x r in let (r'', ls) = resolve_all xs r' in (r'', l ∷ ls)

pub data Entering : Type 0 where
  queued : List LockId → Registry → Entering
  reentered : Entering

-- `lock` up to its wait in the arbiter's queue. `reentered` is the AssertionError.
unfoldable pub enter : Bool → List Lockable → Registry → Entering
unfolding resolve_all
enter locks_active lockables r =
    if locks_active then reentered else (let (r', need) = resolve_all lockables r in queued need r')

-- The end of `lock`: the locks of `need` that the context still holds are released. `none` stands
-- for an exception of `release`.
module _ (callable : Bool) (ctx : ContextId) where
  unfoldable pub leave_one : LockId → Store → Option Store
  unfolding SeqLock.release update
  leave_one l s =
      if held_by ctx (s l)
      then elim (SeqLock.release callable ctx (s l)) [
        | SeqLock.unlocked v ↦ some (update s l v)
        | SeqLock.ignored ↦ some s
        | SeqLock.illegal ↦ none
      ]
      else some s

  unfoldable pub leave : List LockId → Store → Option Store
  leave [] s = some s
  leave (l ∷ need) s = elim (leave_one l s) [ none ↦ none | some s' ↦ leave need s' ]

  -- `release(*lockables)`, on resolved locks.
  unfoldable pub release : List LockId → Store → Option Store
  unfolding SeqLock.release update
  release [] s = some s
  release (l ∷ locks) s = elim (SeqLock.release callable ctx (s l)) [
    | SeqLock.unlocked v ↦ release locks (update s l v)
    | SeqLock.ignored ↦ release locks s
    | SeqLock.illegal ↦ none
  ]

  -- SeqProxy._holds_lock.
  unfoldable pub holds_lock : SeqLock → Bool
  unfolding truthy
  holds_lock l = truthy callable l && held_by ctx l

  -- SeqProxy._event_callback: whether an event of the component is published by the proxy.
  unfoldable pub event_callback : SeqLock → Bool
  unfolding holds_lock
  event_callback l = not (truthy callable l) || holds_lock l

  pub data Enqueue : Type 0 where
    forwarded lock_not_held not_a_driver : Enqueue

  -- SeqProxy.enqueue.
  unfoldable pub enqueue : Bool → SeqLock → Enqueue
  unfolding holds_lock
  enqueue is_driver l =
      if is_driver then (if not (holds_lock l) then lock_not_held else forwarded) else not_a_driver

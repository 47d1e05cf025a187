-- ===== src/Arbiter/Rounds.antt =====
-- forastero/sequence.py, class SeqArbiter: what a turn of `_manage` does to locks and queue.
use forastero.Prelude.{
  ℕ, ◌<◌, ◌≡◌, ◌≢◌, inl, inr, refl, ap, List, [], ◌∷◌, Bool, true, false, not, ◌&&◌, ◌||◌, ◌==◌,
  if◌then◌else◌, elem, arith, Bool-cases, All, length,
}
use forastero.SeqLock.{LockId}
use forastero.SeqLock.Laws.{IsConsistent}
use forastero.Arbiter.{
  Store, Entry, available, Pass, passed, crashed, Stage, at_queue, at_unlock, at_either, running,
  ended, Arbiter, conclude, schedule, round, wake, manage,
}
use native.Mathlib.Decide.{ℕ_discrete}
use forastero.Arbiter.Claims.{AreFree}
use forastero.Arbiter.Granted.{IsPass, Scheduled, grant_of, grant_of_none}
use forastero.Arbiter.Passes.{AreDistinct, pass-IsPass}

-- Every lock's flag agrees with its holder.
abbrev pub AreConsistent : Store → Type 0
AreConsistent s = (j : LockId) → IsConsistent (s j)

elem-available :
    (s : Store) (known : List LockId) (j : LockId)
    → elem j (available s known) ≡ elem j known && not (s j).locked
unfolding available
elem-available s [] j = refl
elem-available s (l ∷ known) j = elim (ℕ_discrete l j) [
  | yes same ↦ rw same (ground (arith, elem-available s known j))
  | no other ↦ ground (arith, elem-available s known j)
]

pub available-AreFree :
    (s : Store) (known : List LockId) → AreConsistent s → AreFree (available s known) s
available-AreFree s known c j h = ground (arith, elem-available s known j, c j)

grant-IsConsistent : (es : List Entry) (s : Store) → AreConsistent s → AreConsistent (grant_of es s)
grant-IsConsistent [] s c j = c j
grant-IsConsistent (entry ∷ es) s c j = elim (Bool-cases (elem j entry.locks)) [
  | inl asked ↦ rw asked (inr (entry.ctx, refl, refl))
  | inr other ↦ rw other (grant-IsConsistent es s c j)
]

Scheduled-keeps :
    {queue : List Entry} {order : List ℕ} {free : List LockId} {s : Store} {free' : List LockId}
    {s' : Store} {new : List ℕ} {granted : List Entry}
    → Scheduled queue order free s free' s' new granted
    → AreFree free s
    → (j : LockId) → (s j).locked ≡ true
    → s' j ≡ s j
Scheduled-keeps {s = s} {granted = granted} p f j h =
    ground (arith, p.held j, p.exclusive j, f j, grant_of_none j granted s)

-- A turn takes no lock from its holder, leaves every lock consistent, and does not end the loop.
pub record IsTurn (a a' : Arbiter) : Type 0 where
  pub keeps : (j : LockId) → (a.store j).locked ≡ true → a'.store j ≡ a.store j
  pub consistent : AreConsistent a'.store
  pub goes_on : a'.stage ≢ ended

module _ (callable : Bool) (known : List LockId) (order : List ℕ) (arrivals : List Entry) where
  conclude-IsTurn :
      (a : Arbiter) (free : List LockId) (r : Pass)
      → AreConsistent a.store
      → AreFree free a.store
      → IsPass a.queue order free a.store [] r
      → IsTurn a (conclude callable known arrivals a r)
  unfolding conclude
  conclude-IsTurn a free (passed free' s' []) c f (new, granted, e, p) = record {
    keeps = Scheduled-keeps p f;
    consistent = λ j. rw (p.held j) (grant-IsConsistent granted a.store c j);
    goes_on = λ h. cc;
  }
  conclude-IsTurn a free (passed free' s' (idx ∷ more)) c f (new, granted, e, p) = record {
    keeps = Scheduled-keeps p f;
    consistent = λ j. rw (p.held j) (grant-IsConsistent granted a.store c j);
    goes_on = λ h. cc;
  }
  conclude-IsTurn a free (crashed s) c f h = absurd h

  -- What a turn relies on: the order names places of the queue, and no entry asks for a lock twice.
  pub record IsSound (a : Arbiter) : Type 0 where
    pub places : All (λ idx. idx < length a.queue) order
    pub once : AreDistinct a.queue
    pub agree : AreConsistent a.store

  same-IsTurn : (a a' : Arbiter) → IsSound a → a'.store ≡ a.store → a'.stage ≢ ended → IsTurn a a'
  same-IsTurn a a' i same goes = record {
    keeps = λ j h. ap (λ (s : Store). s j) same;
    consistent = λ j. rw same (i.agree j);
    goes_on = goes;
  }

  schedule-IsTurn :
      (a : Arbiter) (free : List LockId)
      → IsSound a
      → AreFree free a.store
      → IsTurn a (schedule callable known order arrivals free a)
  unfolding schedule
  schedule-IsTurn a [] i f = same-IsTurn a _ i refl (λ h. cc)
  schedule-IsTurn a (l ∷ free) i f =
      conclude-IsTurn a (l ∷ free) _ i.agree f
        (pass-IsPass callable a.queue i.once order (l ∷ free) a.store [] i.places f)

  round-IsTurn : (a : Arbiter) → IsSound a → IsTurn a (round callable known order arrivals a)
  unfolding round
  round-IsTurn a i = elim (Bool-cases (length a.queue == 0)) [
    | inl none_queued ↦ rw (none_queued, round) (same-IsTurn a _ i refl (λ h. cc))
    | inr some_queued ↦
        rw (some_queued, round)
          (schedule-IsTurn a (available a.store known) i (available-AreFree a.store known i.agree))
  ]

  round-IsTurn_if :
      (b : Bool) (a : Arbiter)
      → a.stage ≢ ended
      → IsSound a
      → IsTurn a (if b then round callable known order arrivals a else a)
  round-IsTurn_if true a n i = round-IsTurn a i
  round-IsTurn_if false a n i = same-IsTurn a a i refl n

  wake-IsTurn :
      (s : Stage) (a : Arbiter)
      → s ≢ ended
      → a.stage ≢ ended
      → IsSound a
      → IsTurn a (wake callable known order arrivals s a)
  unfolding wake
  wake-IsTurn at_queue a n e i = round-IsTurn_if a.evt_queue a e i
  wake-IsTurn (at_unlock fired) a n e i = round-IsTurn_if fired a e i
  wake-IsTurn (at_either fired) a n e i = round-IsTurn_if (fired || a.evt_queue) a e i
  wake-IsTurn running a n e i = round-IsTurn a i
  wake-IsTurn ended a n e i = absurd (n refl)

  -- A turn of `_manage`, from a state in which it has not ended, no queued entry asks for a lock
  -- twice and each lock's flag agrees with its holder: every lock that is held keeps its
  -- holder, the flags still agree, and no exception ends the loop.
  pub manage-IsTurn :
      (a : Arbiter)
      → a.stage ≢ ended
      → IsSound a
      → IsTurn a (manage callable known order arrivals a)
  unfolding manage
  manage-IsTurn a n i = wake-IsTurn a.stage a n n i

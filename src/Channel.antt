-- ===== src/Channel.antt =====
-- forastero/scoreboard.py, class Channel: pairs captured with expected transactions.
--
-- The coroutine `loop` is cut at its awaits. `Stage` says where it waits, `advance` runs it up to
-- the next await, and pushes arrive between two such segments. The asyncio lock is a flag: only
-- the loop holds it across an await, since `drain` gives it back at once.
pub mod Window
pub mod Moves
pub mod Pairing
pub mod Invariant
pub mod History
pub mod Account
pub mod Drain
pub mod Progress
mod Examples
use forastero.Prelude.{
  ℤ, pos, negsuc, ℕ, zero, suc, ◌+◌, List, [], ◌∷◌, ◌++◌, Option, none, some, Bool, true, false,
  ltb, ◌==◌, take, if◌then◌else◌, Eq,
}
use forastero.Queue
use forastero.Queue.{Queue, EventId, done, raised, waiting}
use forastero.Transaction.{Transaction, tx_eq}

pub data DrainPolicy : Type 0 where
  mon_and_ref mon_only ref_only non_blocking : DrainPolicy

-- What the constructor keeps, and whether the mismatch callback raises (Scoreboard.fail_fast).
pub record Config : Type 0 where
  pub timeout_ns : Option ℕ
  pub drain_policy : DrainPolicy
  pub match_window : ℕ
  pub fail_fast : Bool

-- What is given as `match_window`: an integer, or something else, true or false in a test.
pub data GivenWindow : Type 0 where
  integer : ℤ → GivenWindow
  not_an_integer : Bool → GivenWindow

-- `match_window or 1`, and the assertion on it; `none` stands for the AssertionError.
unfoldable pub effective_window : Option GivenWindow → Option ℕ
effective_window none = some 1
effective_window (some (integer (pos zero))) = some 1
effective_window (some (integer (pos (suc n)))) = some (suc n)
effective_window (some (integer (negsuc n))) = none
effective_window (some (not_an_integer false)) = some 1
effective_window (some (not_an_integer true)) = none

pub data Failure : Type 0 where
  window_residence index_error miscompare : Failure

-- Where the loop stands: about to dequeue, at one of the awaits of `_dequeue`, or ended.
pub data Stage (T : Type 0) : Type 0 where
  idle at_monitor at_lock at_reference : Stage T
  at_push : T → Stage T
  at_pop : T → Stage T
  failed : Failure → Stage T

-- A call of the mismatch or the match callback.
pub record Report (T : Type 0) : Type 0 where
  pub mon : T
  pub ref : T
  pub equal : Bool

-- `defaultdict(lambda: 0)`, by the identity of the transaction.
abbrev pub Residence : Type 0
Residence = ℕ → ℕ

unfoldable pub bump : Residence → ℕ → Residence
bump res i j = if j == i then res j + 1 else res j

unfoldable pub forget : Residence → ℕ → Residence
forget res i j = if j == i then 0 else res j

pub record Channel (T : Type 0) : Type 0 where
  pub q_mon : Queue T
  pub q_ref : Queue T
  pub locked : Bool
  pub matched : ℕ
  pub mismatched : ℕ
  pub residence : Residence
  pub stage : Stage T
  pub reports : List (Report T)
  pub next_event : ℕ

unfoldable pub total : {T : Type 0} → Channel T → ℕ
total c = c.matched + c.mismatched

pub data Scan : Type 0 where
  hit : ℕ → Residence → Scan
  miss : Residence → Scan
  overstayed : Residence → Scan

unfoldable pub new : {T : Type 0} → Channel T
new = record {
  q_mon = record { entries = []; on_push = none };
  q_ref = record { entries = []; on_push = none };
  locked = false;
  matched = 0;
  mismatched = 0;
  residence = λ _. 0;
  stage = idle;
  reports = [];
  next_event = 0;
}

module _ {F : Type 0} ⦃e : Eq F⦄ where
  -- The `for` loop of `_dequeue` over the matching window.
  unfoldable pub scan : ℕ → Transaction F → ℕ → List (Transaction F) → Residence → Scan
  scan window mon idx [] res = miss res
  scan window mon idx (ref ∷ refs) res =
      let counted = bump res ref.ident in
      let rest = scan window mon (suc idx) refs counted in
      if ltb window (counted ref.ident)
      then overstayed counted
      else if tx_eq ref mon
      then hit idx (forget counted ref.ident)
      else rest

  unfoldable pub push_monitor : Transaction F → Channel (Transaction F) → Channel (Transaction F)
  push_monitor t c = record c { q_mon = (Queue.push t c.q_mon).0 }

  unfoldable pub push_reference : Transaction F → Channel (Transaction F) → Channel (Transaction F)
  push_reference t c = record c { q_ref = (Queue.push t c.q_ref).0 }

  -- `_sample`: an optional filter may change or drop what the monitor captured.
  unfoldable pub sample :
      Option (Transaction F → Option (Transaction F))
      → Transaction F
      → Channel (Transaction F)
      → Channel (Transaction F)
  sample none t c = push_monitor t c
  sample (some filter_fn) t c = elim (filter_fn t) [ none ↦ c | some t' ↦ push_monitor t' c ]

  abbrev pub fail : Failure → Channel (Transaction F) → Channel (Transaction F)
  fail f c = record c { stage = failed f }

-- A waiter goes on once its event has been fired and cleared by a push.
abbrev pub when_pushed : {S : Type 0} → Option EventId → S → S → S
when_pushed (some _) c c' = c
when_pushed none c c' = c'

module _ {F : Type 0} ⦃e : Eq F⦄ (cfg : Config) where
  -- The body of `loop` behind `_dequeue`: compare, count, report, release the lock.
  unfoldable pub settle :
      Transaction F → Transaction F → Channel (Transaction F) → Channel (Transaction F)
  settle mon ref c =
      let told = c.reports ++ record { mon = mon; ref = ref; equal = tx_eq mon ref } ∷ [] in
      if tx_eq mon ref
      then record c { matched = c.matched + 1; reports = told; locked = false; stage = idle }
      else if cfg.fail_fast
      then record c { mismatched = c.mismatched + 1; reports = told; stage = failed miscompare }
      else record c { mismatched = c.mismatched + 1; reports = told; locked = false; stage = idle }

  -- The end of `_dequeue`: the front of the monitor queue is popped last.
  unfoldable pub finish : Transaction F → Channel (Transaction F) → Channel (Transaction F)
  finish ref c = elim (Queue.pop c.next_event 0 c.q_mon) [
    | done q mon ↦ settle mon ref (record c { q_mon = q })
    | raised _ ↦ fail index_error c
    | waiting q evt ↦ record c { q_mon = q; stage = at_pop ref; next_event = c.next_event + 1 }
  ]

  unfoldable pub take_reference : ℕ → Channel (Transaction F) → Channel (Transaction F)
  take_reference idx c = elim (Queue.pop c.next_event idx c.q_ref) [
    | done q ref ↦ finish ref (record c { q_ref = q })
    | raised _ ↦ fail index_error c
    | waiting q evt ↦ record c { q_ref = q; stage = at_reference; next_event = c.next_event + 1 }
  ]

  -- What one round of `while next_ref is None` does with the result of its `for` loop.
  unfoldable pub conclude : Transaction F → Scan → Channel (Transaction F) → Channel (Transaction F)
  conclude mon (hit idx res) c = take_reference idx (record c { residence = res })
  conclude mon (overstayed res) c = fail window_residence (record c { residence = res })
  conclude mon (miss res) c =
      if ltb (Queue.level c.q_ref) cfg.match_window
      then record c {
        residence = res;
        q_ref = (Queue.on_push_event c.next_event c.q_ref).0;
        stage = at_push mon;
        next_event = c.next_event + 1;
      }
      else take_reference 0 (record c { residence = res })

  unfoldable pub search : Transaction F → Channel (Transaction F) → Channel (Transaction F)
  search mon c =
      conclude mon (scan cfg.match_window mon 0 (take cfg.match_window c.q_ref.entries) c.residence)
        c

  -- With the lock taken: pop the first reference, or search the window.
  unfoldable pub pick : Channel (Transaction F) → Channel (Transaction F)
  pick c =
      if cfg.match_window == 1
      then take_reference 0 c
      else elim (Queue.get_item c.q_mon 0) [ none ↦ fail index_error c | some mon ↦ search mon c ]

  unfoldable pub acquire : Channel (Transaction F) → Channel (Transaction F)
  acquire c = if c.locked then record c { stage = at_lock } else pick (record c { locked = true })

  unfoldable pub start : Channel (Transaction F) → Channel (Transaction F)
  start c = elim (Queue.wait_for_not_empty c.next_event c.q_mon) [
    | done q _ ↦ acquire (record c { q_mon = q })
    | raised _ ↦ fail index_error c
    | waiting q evt ↦ record c { q_mon = q; stage = at_monitor; next_event = c.next_event + 1 }
  ]

  -- `self._entries.pop(index)` behind a wait in `pop`.
  unfoldable pub resume_reference : Channel (Transaction F) → Channel (Transaction F)
  resume_reference c = elim (Queue.pop_entry 0 c.q_ref) [
    | done q ref ↦ finish ref (record c { q_ref = q })
    | _ ↦ fail index_error c
  ]

  unfoldable pub resume_monitor : Transaction F → Channel (Transaction F) → Channel (Transaction F)
  resume_monitor ref c = elim (Queue.pop_entry 0 c.q_mon) [
    | done q mon ↦ settle mon ref (record c { q_mon = q })
    | _ ↦ fail index_error c
  ]

  unfoldable pub resume : Stage (Transaction F) → Channel (Transaction F) → Channel (Transaction F)
  resume idle c = start c
  resume at_monitor c = when_pushed c.q_mon.on_push c (acquire c)
  resume at_lock c = if c.locked then c else pick (record c { locked = true })
  resume at_reference c = when_pushed c.q_ref.on_push c (resume_reference c)
  resume (at_push mon) c = when_pushed c.q_ref.on_push c (search mon c)
  resume (at_pop ref) c = when_pushed c.q_mon.on_push c (resume_monitor ref c)
  resume (failed _) c = c

  -- The loop runs to its next await, if what it waits for has happened.
  unfoldable pub advance : Channel (Transaction F) → Channel (Transaction F)
  advance c = resume c.stage c

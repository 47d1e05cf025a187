-- ===== src/Funnel.antt =====
-- forastero/scoreboard.py, class FunnelChannel: a channel with several named reference queues.
--
-- `base` holds what FunnelChannel inherits from Channel; the reference queue of `base` is not
-- used, since the constructor puts a dictionary of queues in its place. The dictionary is a list
-- in the order of its keys.
pub mod Moves
pub mod Invariant
pub mod Pushes
pub mod Sources
pub mod Live
pub mod Sound
pub mod Streams
pub mod Interleaved
pub mod Complete
mod Examples
use Prim.Native.String.{String}
use forastero.Prelude.{
  ℕ, ◌+◌, List, [], ◌∷◌, ◌++◌, Option, none, some, Bool, true, false, ◌||◌, if◌then◌else◌, Eq,
  ◌=?=◌, string_eq, map, ◌==◌, length,
}
use forastero.Queue
use forastero.Queue.{Queue, EventId, done, raised, waiting}
use forastero.Transaction.{Transaction, tx_eq}
use forastero.Channel
use forastero.Channel.{
  Channel, Config, Stage, idle, at_monitor, at_lock, at_reference, at_push, at_pop, failed, Failure,
  index_error, settle,
}

pub record Funnel (T : Type 0) : Type 0 where
  pub base : Channel T
  pub queues : List (String × Queue T)

module _ {T : Type 0} where
  unfoldable pub total_level : List (String × Queue T) → ℕ
  total_level [] = 0
  total_level ((name, q) ∷ queues) = length q.entries + total_level queues

  unfoldable pub reference_depth : Funnel T → ℕ
  reference_depth c = total_level c.queues

  -- `self._q_ref[queue].push(transaction)`.
  unfoldable pub push_at : String → T → List (String × Queue T) → List (String × Queue T)
  unfolding Queue.push
  push_at name t [] = []
  push_at name t ((key, q) ∷ queues) =
      if key =?= name then (key, (Queue.push t q).0) ∷ queues else (key, q) ∷ push_at name t queues

  unfoldable pub has_queue : String → List (String × Queue T) → Bool
  has_queue name [] = false
  has_queue name ((key, q) ∷ queues) = key =?= name || has_queue name queues

  -- `{x: Queue() for x in ref_queues}`, where a name that comes again stays where it is.
  unfoldable pub add_queue : String → List (String × Queue T) → List (String × Queue T)
  add_queue name queues =
      if has_queue name queues
      then queues
      else queues ++ (name, record { entries = []; on_push = none }) ∷ []

  unfoldable pub add_queues : List String → List (String × Queue T) → List (String × Queue T)
  add_queues [] queues = queues
  add_queues (name ∷ names) queues = add_queues names (add_queue name queues)

  unfoldable pub new : List String → Funnel T
  new ref_queues = record { base = Channel.new; queues = add_queues ref_queues [] }

  -- `none` stands for the AssertionError.
  unfoldable pub push_reference : String → T → Funnel T → Option (Funnel T)
  push_reference name t c =
      if has_queue name c.queues then some (record c { queues = push_at name t c.queues }) else none

  -- The end of the wait for any of the queues' events.
  unfoldable pub any_pushed : List (String × Queue T) → Bool
  any_pushed [] = false
  any_pushed ((name, q) ∷ queues) = elim q.on_push [ none ↦ true | some _ ↦ any_pushed queues ]

  -- `x.on_push_event` for each queue, with the handles from `fresh` on.
  unfoldable pub register_all : EventId → List (String × Queue T) → List (String × Queue T)
  register_all fresh [] = []
  register_all fresh ((name, q) ∷ queues) =
      (name, (Queue.on_push_event fresh q).0) ∷ register_all (fresh + 1) queues

-- The `for` loop over the queues: the queues behind the pop with the transaction popped, or
-- whether any queue was empty.
pub data Sweep (T : Type 0) : Type 0 where
  found : List (String × Queue T) → T → Sweep T
  nothing : Bool → Sweep T

abbrev pub beside : {T : Type 0} → String × Queue T → Sweep T → Sweep T
beside entry (found queues ref) = found (entry ∷ queues) ref
beside entry (nothing any_empty) = nothing any_empty

module _ {F : Type 0} ⦃e : Eq F⦄ where
  unfoldable pub sweep :
      Transaction F → List (String × Queue (Transaction F)) → Bool → Sweep (Transaction F)
  sweep mon [] any_empty = nothing any_empty
  sweep mon ((name, q) ∷ queues) any_empty = elim q.entries [
    | [] ↦ beside (name, q) (sweep mon queues true)
    | ref ∷ rest ↦
        let later = beside (name, q) (sweep mon queues any_empty) in
        if tx_eq ref mon then found ((name, record q { entries = rest }) ∷ queues) ref else later
  ]

  -- `queue.pop()` behind the loop: the last queue. `nothing` if it has no entry, or if there is no
  -- queue at all.
  unfoldable pub pop_last : List (String × Queue (Transaction F)) → Sweep (Transaction F)
  pop_last [] = nothing true
  pop_last ((name, q) ∷ []) = elim q.entries [
    | [] ↦ nothing true
    | ref ∷ rest ↦ found ((name, record q { entries = rest }) ∷ []) ref
  ]
  pop_last (entry ∷ next ∷ queues) = beside entry (pop_last (next ∷ queues))

module _ {F : Type 0} ⦃e : Eq F⦄ (cfg : Config) where
  -- A pair has been taken: the monitor's queue is popped, and `loop` settles the pair.
  unfoldable pub pair_up :
      Transaction F
      → Transaction F
      → List (Transaction F)
      → List (String × Queue (Transaction F))
      → Funnel (Transaction F)
      → Funnel (Transaction F)
  pair_up mon ref rest queues c = record {
    base =
        settle cfg mon ref (record (c.base) { q_mon = record (c.base.q_mon) { entries = rest } });
    queues = queues;
  }

  abbrev crash : Funnel (Transaction F) → Funnel (Transaction F)
  crash c = record c { base = record (c.base) { stage = failed index_error } }

  -- Behind the `for` loop.
  unfoldable pub conclude :
      Transaction F
      → List (Transaction F)
      → Sweep (Transaction F)
      → Funnel (Transaction F)
      → Funnel (Transaction F)
  conclude mon rest (found queues ref) c = pair_up mon ref rest queues c
  conclude mon rest (nothing true) c = record {
    base = record (c.base) {
      stage = at_push mon;
      next_event = c.base.next_event + length c.queues;
    };
    queues = register_all c.base.next_event c.queues;
  }
  conclude mon rest (nothing false) c = elim (pop_last c.queues) [
    | found queues ref ↦ pair_up mon ref rest queues c
    | nothing _ ↦ crash c
  ]

  -- One round of `while True`. The peek of an empty monitor queue raises.
  unfoldable pub round : List (Transaction F) → Funnel (Transaction F) → Funnel (Transaction F)
  round [] c = crash c
  round (mon ∷ rest) c = conclude mon rest (sweep mon c.queues false) c

  unfoldable pub acquire : Funnel (Transaction F) → Funnel (Transaction F)
  acquire c =
      if c.base.locked
      then record c { base = record (c.base) { stage = at_lock } }
      else round c.base.q_mon.entries (record c { base = record (c.base) { locked = true } })

  unfoldable pub start : Funnel (Transaction F) → Funnel (Transaction F)
  start c = elim (Queue.wait_for_not_empty c.base.next_event c.base.q_mon) [
    | done q _ ↦ acquire (record c { base = record (c.base) { q_mon = q } })
    | raised _ ↦ crash c
    | waiting q evt ↦ record c {
      base = record (c.base) { q_mon = q; stage = at_monitor; next_event = c.base.next_event + 1 };
    }
  ]

  unfoldable pub resume : Stage (Transaction F) → Funnel (Transaction F) → Funnel (Transaction F)
  resume idle c = start c
  resume at_monitor c = elim c.base.q_mon.on_push [ none ↦ acquire c | some _ ↦ c ]
  resume at_lock c = acquire c
  resume (at_push mon) c = if any_pushed c.queues then round c.base.q_mon.entries c else c
  resume _ c = c

  -- The loop of the funnel channel runs to its next await, if what it waits for has happened.
  unfoldable pub advance : Funnel (Transaction F) → Funnel (Transaction F)
  advance c = resume c.base.stage c

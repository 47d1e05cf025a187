-- ===== src/Monitor.antt =====
-- forastero/monitor.py: a monitor's loop, its count of captures, and who is told of them.
--
-- `monitor` of a child class is the list of the transactions that it hands to `capture`. A handler
-- is the `_sample` of a scoreboard channel, or one of the testbench's, of the type `H`; what the
-- latter does to the scoreboard is an argument.
pub mod Channels
pub mod Sampling
mod Examples
use Prim.Native.String.{String}
use forastero.Prelude.{
  ℕ, ◌+◌, ◌≡◌, ◌↔◌, refl, List, [], ◌∷◌, Option, none, some, Bool, true, false, Eq,
}
use forastero.Transaction.{Transaction}
use forastero.Event
use forastero.Event.{EventEmitter, Publication, enumerated, publish, subscribe}
use forastero.Scoreboard
use forastero.Scoreboard.{Scoreboard, Settings}

pub data MonitorEvent : Type 0 where
  capture : MonitorEvent

abbrev pub event_beq : MonitorEvent → MonitorEvent → Bool
event_beq capture capture = true

pub event_beq_iff : (a b : MonitorEvent) → (event_beq a b ≡ true) ↔ (a ≡ b)
event_beq_iff capture capture = ((λ h. refl), λ h. refl)

instance abbrev pub event_eq : Eq MonitorEvent
event_eq = record { beq = event_beq; beq_iff = event_beq_iff }

pub data Handler (H : Type 0) : Type 0 where
  sampler : String → Handler H
  callback : H → Handler H

-- Where `_monitor_loop` waits: for the testbench, for the first edge, or in `monitor`; or that the
-- placeholder `monitor` of BaseMonitor has raised.
pub data Stage : Type 0 where
  at_ready at_edge monitoring not_implemented : Stage

pub record Monitor (H : Type 0) : Type 0 where
  pub captured : ℕ
  pub is_ready : Bool
  pub stage : Stage
  pub emitter : EventEmitter MonitorEvent (Handler H)

module _ {H : Type 0} where
  unfoldable pub new : Monitor H
  new = record { captured = 0; is_ready = false; stage = at_ready; emitter = Event.new }

  -- The loop goes on when what it waits for has happened; `overridden` tells whether the child class
  -- has a `monitor` of its own.
  unfoldable pub resume : Bool → Stage → Monitor H → Monitor H
  resume overridden at_ready m = record m { stage = at_edge }
  resume true at_edge m = record m { is_ready = true; stage = monitoring }
  resume false at_edge m = record m { is_ready = true; stage = not_implemented }
  resume overridden stage m = m

  unfoldable pub advance : Bool → Monitor H → Monitor H
  advance overridden m = resume overridden m.stage m

  -- The constructor of Channel: `monitor.subscribe(MonitorEvent.CAPTURE, _sample)`.
  unfoldable pub watch : String → Monitor H → Option (Monitor H)
  watch name m = elim (subscribe (enumerated capture) (sampler name) m.emitter) [
    | none ↦ none
    | some emitter ↦ some (record m { emitter = emitter })
  ]

  -- `_capture`.
  unfoldable pub on_capture :
      {O : Type 0} → O → Monitor H → Monitor H × Publication MonitorEvent (Handler H) O
  on_capture obj m =
      let (emitter, told) = publish (λ e. e) capture obj m.emitter in
      (record m { captured = m.captured + 1; emitter = emitter }, told)

module _ {F H : Type 0} ⦃e : Eq F⦄ (effect : H → Transaction F → Scoreboard F → Scoreboard F) where
  -- A call of a handler; `none` for an exception.
  unfoldable pub handle : Handler H → Transaction F → Scoreboard F → Option (Scoreboard F)
  handle (sampler name) obj board = Scoreboard.capture name obj board
  handle (callback h) obj board = some (effect h obj board)

  unfoldable pub handle_all :
      List (Handler H × MonitorEvent × Transaction F) → Scoreboard F → Option (Scoreboard F)
  handle_all [] board = some board
  handle_all ((h, event, obj) ∷ calls) board = elim (handle h obj board) [
    | none ↦ none
    | some board' ↦ handle_all calls board'
  ]

  -- `monitor` captures the transactions one after the other.
  unfoldable pub captures :
      List (Transaction F) → Monitor H × Scoreboard F → Option (Monitor H × Scoreboard F)
  captures [] s = some s
  captures (obj ∷ objs) (m, board) =
      let (m', told) = on_capture obj m in
      elim (handle_all told.called board) [ none ↦ none | some board' ↦ captures objs (m', board') ]

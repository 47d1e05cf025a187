-- ===== src/Stream.antt =====
-- examples/common/io/stream: drivers and a monitor of a handshaken stream.
--
-- An edge of the clock is what the components see at it. A signal that the design does not have is
-- `none`: `BaseIO.get` then gives the default of the call, and `set` does nothing. The signal of the
-- data is one part with the bits from 0 to its width, and a SignalWrapper masks what is written to
-- it; those of the handshake have one bit. The drivers set their signals between two edges.
pub mod Transfer
mod Examples
use Prim.Native.String.{String}
use forastero.Prelude.{
  ℕ, ◌+◌, ◌%◌, ◌^◌, List, [], ◌∷◌, ◌++◌, Option, none, some, Bool, true, false, ◌&&◌, if◌then◌else◌,
  replicate,
}
use forastero.Io
use forastero.Io.{Io, IoRole, Style, Dut}

-- The constructor of StreamIO.
unfoldable pub stream_io : {V : Type 0} → Style → Dut → Option String → IoRole → Io V
stream_io io_style dut name role =
    Io.new io_style dut name role ("data" ∷ "valid" ∷ []) ("ready" ∷ [])

-- The fields of StreamTransaction and of StreamBackpressure.
pub record StreamTransaction : Type 0 where
  pub data_word : ℕ

pub record StreamBackpressure : Type 0 where
  pub ready : Bool
  pub cycles : ℕ

-- The signal of the data, and what its bits are at.
pub record Word : Type 0 where
  pub width : ℕ
  pub level : ℕ

pub record Edge : Type 0 where
  pub in_reset : Bool
  pub valid : Option Bool
  pub ready : Option Bool
  pub word : Option Word

-- `io.get(comp, default)`.
abbrev pub get {ℓ} : {A : Type ℓ} → A → Option A → A
get default none = default
get default (some x) = x

-- `io.set(comp, value)`.
abbrev pub set {ℓ} : {A : Type ℓ} → A → Option A → Option A
set value none = none
set value (some x) = some value

-- The same of the data, where a SignalWrapper has a value in the signal's width.
unfoldable pub get_word : ℕ → Option Word → ℕ
get_word default none = default
get_word default (some w) = w.level % 2 ^ w.width

unfoldable pub set_word : ℕ → Option Word → Option Word
set_word value none = none
set_word value (some w) = some (record w { level = value % 2 ^ w.width })

-- StreamMonitor.monitor: the transactions that it captures over some edges.
unfoldable pub monitor : List Edge → List StreamTransaction
monitor [] = []
monitor (edge ∷ edges) =
    let later = monitor edges in
    if edge.in_reset
    then later
    else if get true edge.valid && get true edge.ready
    then record { data_word = get_word 0 edge.word } ∷ later
    else later

-- StreamInitiator on its signals, with the transactions that are queued behind the driven one.
pub record StreamInitiator : Type 0 where
  pub queue : List StreamTransaction
  pub driving : Bool
  pub valid : Option Bool
  pub word : Option Word

-- The driver's loop takes the next transaction, and `drive` sets the signals.
unfoldable pub begin : StreamInitiator → List StreamTransaction → StreamInitiator
begin i [] = record i { queue = []; driving = false }
begin i (obj ∷ queue) = record i {
  queue = queue;
  driving = true;
  word = set_word obj.data_word i.word;
  valid = set true i.valid;
}

-- A rising edge at which `io.get("ready", 1)` is `ready`: the end of `drive`, or another round.
unfoldable pub initiator_edge : Bool → StreamInitiator → StreamInitiator
initiator_edge ready i =
    if i.driving && ready then begin (record i { valid = set false i.valid }) i.queue else i

-- The interface at its edges, from the levels of its ready signal.
unfoldable pub edges_of : List Bool → StreamInitiator → List Edge
edges_of [] i = []
edges_of (ready ∷ levels) i =
    record { in_reset = false; valid = i.valid; ready = some ready; word = i.word }
    ∷ edges_of levels (initiator_edge ready i)

-- StreamResponder.drive, over its queue: `ready` is held for some cycles.
unfoldable pub levels_of : List StreamBackpressure → List Bool
levels_of [] = []
levels_of (obj ∷ objs) = replicate obj.cycles obj.ready ++ levels_of objs

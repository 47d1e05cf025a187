-- ===== src/Io.antt =====
-- forastero/io.py, class BaseIO: the signals of an interface, found on the design under test by a
-- naming style.
--
-- The design is a list of its signals by name, each wrapped (Signal.antt); an attribute of the
-- interface is the name of the signal that its wrapper reads and writes. `V` is the type of the
-- default values.
pub mod Resolve
pub mod Access
mod Examples
use Prim.Native.String.{String, ◌++◌ as join}
use forastero.Prelude.{
  ℕ, ◌-◌, ◌+◌, List, [], ◌∷◌, Option, none, some, Bool, true, false, ◌||◌, if◌then◌else◌, Eq, ◌=?=◌,
  string_eq, ◌==◌,
}
use forastero.Signal
use forastero.Signal.{Bits, SignalWrapper, zero_bits}

pub data IoRole : Type 0 where
  initiator responder : IoRole

unfoldable pub opposite : IoRole → IoRole
opposite initiator = responder
opposite responder = initiator

-- The dictionary `mapping`.
unfoldable pub direction : IoRole → IoRole → String
direction initiator initiator = "o"
direction initiator responder = "i"
direction responder initiator = "i"
direction responder responder = "o"

abbrev pub Style : Type 0
Style = Option String → String → IoRole → IoRole → String

unfoldable pub bus_prefix : Option String → String
bus_prefix none = ""
bus_prefix (some bus) = join bus "_"

unfoldable pub io_prefix_style : Style
io_prefix_style none component role_bus role_comp =
    join (direction role_bus role_comp) (join "_" component)
io_prefix_style (some bus) component role_bus role_comp =
    join (direction role_bus role_comp) (join "_" (join bus (join "_" component)))

unfoldable pub io_suffix_style : Style
io_suffix_style bus component role_bus role_comp =
    join (bus_prefix bus) (join component (join "_" (direction role_bus role_comp)))

unfoldable pub io_plain_style : Style
io_plain_style bus component role_bus role_comp = join (bus_prefix bus) component

abbrev pub Dut : Type 0
Dut = List (String × SignalWrapper)

unfoldable pub find : {A : Type 0} → String → List (String × A) → Option A
find name [] = none
find name ((key, x) ∷ table) = if key =?= name then some x else find name table

abbrev pub is_some : {A : Type 0} → Option A → Bool
is_some none = false
is_some (some _) = true

pub record Io (V : Type 0) : Type 0 where
  pub role : IoRole
  pub initiators : List (String × String)
  pub responders : List (String × String)
  pub defaults : List (String × V)

-- One of the two `for` loops of the constructor, with the styled name of a component.
unfoldable pub resolve : Dut → (String → String) → List String → List (String × String)
resolve dut styled [] = []
resolve dut styled (comp ∷ comps) =
    let rest = resolve dut styled comps in
    elim (find (styled comp) dut) [ none ↦ rest | some _ ↦ (comp, styled comp) ∷ rest ]

-- What `get` returns: None, a default, a flag for a signal of width 1, or the bits.
pub data Got (V : Type 0) : Type 0 where
  nothing : Got V
  a_default : V → Got V
  flag : Bool → Got V
  raw : Bits → Got V

module _ {V : Type 0} where
  unfoldable pub new : Style → Dut → Option String → IoRole → List String → List String → Io V
  new io_style dut name role init_sigs resp_sigs = record {
    role = role;
    initiators = resolve dut (λ comp. io_style name comp role initiator) init_sigs;
    responders = resolve dut (λ comp. io_style name comp role responder) resp_sigs;
    defaults = [];
  }

  unfoldable pub set_default : String → V → Io V → Io V
  set_default comp value io = record io { defaults = (comp, value) ∷ io.defaults }

  unfoldable pub has : String → Io V → Bool
  has comp io = is_some (find comp io.initiators) || is_some (find comp io.responders)

  -- `getattr(self, comp, None)`: the responders are set last.
  unfoldable pub attribute : String → Io V → Option String
  attribute comp io = elim (find comp io.responders) [
    | none ↦ find comp io.initiators
    | some sig ↦ some sig
  ]

  unfoldable pub default_of : Option V → Option V → Got V
  default_of none none = nothing
  default_of none (some value) = a_default value
  default_of (some value) _ = a_default value

  -- A signal of width 1 has no bit above the lowest, so `raw == 1` is that bit.
  unfoldable pub read : Option SignalWrapper → Got V
  read none = nothing
  read (some w) =
      if w.width == 1 then flag (Signal.value w.packing 0) else raw (Signal.value w.packing)

  unfoldable pub get : String → Option V → Io V → Dut → Got V
  get comp default io dut = elim (attribute comp io) [
    | none ↦ default_of default (find comp io.defaults)
    | some sig ↦ read (find sig dut)
  ]

unfoldable pub write : String → Bits → Dut → Dut
write sig v [] = []
write sig v ((key, w) ∷ dut) =
    if key =?= sig
    then (key, record w { packing = Signal.set_value v w.packing }) ∷ dut
    else (key, w) ∷ write sig v dut

unfoldable pub write_all : List (String × String) → Bits → Dut → Dut
write_all [] v dut = dut
write_all ((comp, sig) ∷ signals) v dut = write_all signals v (write sig v dut)

-- `max(sig._range) - min(sig._range) + 1`, with the range from 0 to the width less 1.
unfoldable pub range_size : Option SignalWrapper → ℕ
range_size none = 0
range_size (some w) = if w.width == 0 then 2 else (w.width - 1) + 1

module _ {V : Type 0} where
  unfoldable pub initialise : IoRole → Io V → Dut → Dut
  initialise initiator io dut = write_all io.initiators zero_bits dut
  initialise responder io dut = write_all io.responders zero_bits dut

  unfoldable pub set : String → Bits → Io V → Dut → Dut
  set comp v io dut =
      if has comp io
      then elim (attribute comp io) [ none ↦ dut | some sig ↦ write sig v dut ]
      else dut

  unfoldable pub width : String → Io V → Dut → ℕ
  width comp io dut =
      if has comp io
      then elim (attribute comp io) [ none ↦ 0 | some sig ↦ range_size (find sig dut) ]
      else 0

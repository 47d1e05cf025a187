-- ===== src/Demo.antt =====
-- examples/arbiter_strict and examples/arbiter_window: the two testbenches of the stream arbiter, with
-- their models. The transactions are StreamTransaction's, known by their data.
pub mod Stimuli
pub mod Drift
pub mod Sequences
pub mod Accepted
mod Examples
use Prim.Native.String.{String}
use forastero.Prelude.{
  ℕ, pos, ◌+◌, ◌/◌, ◌%◌, List, [], ◌∷◌, Option, none, some, Bool, true, false, ◌==◌, if◌then◌else◌,
  nat_eq,
}
use forastero.Transaction.{Transaction}
use forastero.Channel.{integer}
use forastero.Scoreboard
use forastero.Scoreboard.{Scoreboard}
use forastero.Bench
use forastero.Bench.{Bench, Argument, Arguments}
use forastero.Bench.Kinds.{Registered, driver, monitor}

-- `data | (1 << 32)`.
unfoldable pub set_bit_32 : ℕ → ℕ
set_bit_32 word = if (word / 4294967296) % 2 == 1 then word else word + 4294967296

-- A new StreamTransaction; its identity is not looked at.
unfoldable pub expectation : Transaction ℕ → Transaction ℕ
expectation obj = record obj { f_event = none; c_event = none; fields = set_bit_32 obj.fields }

unfoldable pub filter_x_mon : Transaction ℕ → Option (Transaction ℕ)
filter_x_mon obj = some (expectation obj)

abbrev pub absent : {A : Type 0} → Argument A
absent = record { sb = none; old = none }

abbrev pub no_arguments : Arguments ℕ
no_arguments = record {
  scoreboard = true;
  queues = absent;
  filter = absent;
  timeout_ns = absent;
  polling_ns = absent;
  drain_policy = absent;
  match_window = absent;
  unexpected = [];
}

infixl 5 ◌>>=◌
abbrev ◌>>=◌ : {A B : Type 0} → Option A → (A → Option B) → Option B
none >>= f = none
some x >>= f = f x

-- What both constructors register first.
unfoldable pub stream_drivers : Bool → Option (Bench ℕ)
stream_drivers fail_fast = do
  with_a ← Bench.register "a_init" (driver true) no_arguments (Bench.new fail_fast)
  with_b ← Bench.register "b_init" (driver true) no_arguments with_a
  Bench.register "x_resp" (driver false) no_arguments with_b

abbrev pub strict_arguments : Arguments ℕ
strict_arguments = record no_arguments {
  queues = record { sb = none; old = some (some ("a" ∷ "b" ∷ [])) };
  filter = record { sb = none; old = some (some filter_x_mon) };
}

abbrev pub window_arguments : Arguments ℕ
window_arguments = record no_arguments {
  match_window = record { sb = none; old = some (some (integer (pos 4))) };
}

-- `Testbench.__init__` of the two examples.
unfoldable pub strict_testbench : Bool → Option (Bench ℕ)
strict_testbench fail_fast = do
  drivers ← stream_drivers fail_fast
  Bench.register "x_mon" (monitor true) strict_arguments drivers

unfoldable pub window_testbench : Bool → Option (Bench ℕ)
window_testbench fail_fast = do
  drivers ← stream_drivers fail_fast
  Bench.register "x_mon" (monitor true) window_arguments drivers

pub data Source : Type 0 where
  a_init b_init : Source

unfoldable pub queue_of : Source → String
queue_of a_init = "a"
queue_of b_init = "b"

-- `model` of the strict testbench, behind POST_DRIVE, and of the window testbench, behind ENQUEUE.
unfoldable pub strict_model : Source → Transaction ℕ → Scoreboard ℕ → Option (Scoreboard ℕ)
strict_model source obj board =
    Scoreboard.push_reference "x_mon" (some (queue_of source)) (expectation obj) board

unfoldable pub window_model : Source → Transaction ℕ → Scoreboard ℕ → Option (Scoreboard ℕ)
window_model source obj board = Scoreboard.push_reference "x_mon" none obj board

-- ===== src/Bench/Kinds.antt =====
-- forastero/bench.py: what can be registered with a testbench.
use forastero.Prelude.{Bool}

-- What `register` is given: a coroutine, a driver, a monitor, or an object of another kind.
pub data Registered : Type 0 where
  coroutine : Registered
  driver monitor : Bool → Registered
  unsupported : Registered

-- ===== src/Bench/CloseDown.antt =====
-- forastero/bench.py, BaseBench.close_down, schedule and add_teardown: the waits of a shutdown.
--
-- The coroutine is cut at its awaits: `stage` says what it waits for, and `returned` runs it from the
-- end of that wait to the next one. Meanwhile sequences may be scheduled, processes registered and
-- teardown steps added. Tasks and coroutines are known by numbers, components by names.
pub mod Phases
pub mod Order
pub mod Processes
mod Examples
use Prim.Native.String.{String}
use forastero.Prelude.{
  ℕ, zero, suc, List, [], ◌∷◌, ◌++◌, Option, none, some, Bool, true, false, get_elem?,
  if◌then◌else◌,
}
use forastero.Bench.Kinds.{Registered, coroutine, driver, monitor, unsupported}

-- What is awaited.
pub data Wait : Type 0 where
  sequence : ℕ → Wait
  clock_cycles : ℕ → Wait
  driver_idle monitor_idle : String → Wait
  process : ℕ → Wait
  scoreboard_drain : Wait
  teardown_step : ℕ → Wait

-- The loops over lists that may grow keep an index; the others keep what is left of their list.
pub data Stage : Type 0 where
  at_sequence : ℕ → Stage
  at_delay : Stage
  at_driver at_monitor : List String → Stage
  at_process : List ℕ → Stage
  at_drain : Stage
  at_teardown : ℕ → Stage
  finished : Stage

pub record Shutdown : Type 0 where
  pub drivers : List String
  pub monitors : List String
  pub delay : ℕ
  pub loops : ℕ
  pub sequences : List ℕ
  pub processes : List ℕ
  pub teardown : List ℕ
  pub stage : Stage
  pub waits : List Wait

unfoldable pub blocking_drivers : List (String × Registered) → List String
blocking_drivers [] = []
blocking_drivers ((name, driver true) ∷ components) = name ∷ blocking_drivers components
blocking_drivers ((name, _) ∷ components) = blocking_drivers components

unfoldable pub blocking_monitors : List (String × Registered) → List String
blocking_monitors [] = []
blocking_monitors ((name, monitor true) ∷ components) = name ∷ blocking_monitors components
blocking_monitors ((name, _) ∷ components) = blocking_monitors components

abbrev pub wait : Stage → Wait → Shutdown → Shutdown
wait stage w s = record s { stage = stage; waits = s.waits ++ w ∷ [] }

unfoldable pub next_teardown : ℕ → Shutdown → Shutdown
next_teardown i s = elim (get_elem? s.teardown i) [
  | none ↦ record s { stage = finished }
  | some coro ↦ wait (at_teardown i) (teardown_step coro) s
]

unfoldable pub next_sequence : ℕ → Shutdown → Shutdown
next_sequence i s = elim (get_elem? s.sequences i) [
  | none ↦ wait at_delay (clock_cycles s.delay) s
  | some task ↦ wait (at_sequence i) (sequence task) s
]

unfoldable pub begin_loop : ℕ → Shutdown → Shutdown
begin_loop zero s = next_teardown 0 s
begin_loop (suc loops) s = next_sequence 0 (record s { loops = loops })

unfoldable pub next_process : List ℕ → Shutdown → Shutdown
next_process [] s = wait at_drain scoreboard_drain s
next_process (proc ∷ procs) s = wait (at_process procs) (process proc) s

-- `procs, self._processes = self._processes, {}`.
unfoldable pub collect : Shutdown → Shutdown
collect s = next_process s.processes (record s { processes = [] })

unfoldable pub next_monitor : List String → Shutdown → Shutdown
next_monitor [] s = collect s
next_monitor (name ∷ names) s = wait (at_monitor names) (monitor_idle name) s

unfoldable pub next_driver : List String → Shutdown → Shutdown
next_driver [] s = next_monitor s.monitors s
next_driver (name ∷ names) s = wait (at_driver names) (driver_idle name) s

unfoldable pub returned_at : Stage → Shutdown → Shutdown
returned_at (at_sequence i) s = next_sequence (suc i) s
returned_at at_delay s = next_driver s.drivers s
returned_at (at_driver names) s = next_driver names s
returned_at (at_monitor names) s = next_monitor names s
returned_at (at_process procs) s = next_process procs s
returned_at at_drain s = begin_loop s.loops s
returned_at (at_teardown i) s = next_teardown (suc i) s
returned_at finished s = s

unfoldable pub returned : Shutdown → Shutdown
returned s = returned_at s.stage s

-- `close_down(loops, delay)` up to its first await.
unfoldable pub close_down : ℕ → ℕ → List (String × Registered) → List ℕ → List ℕ → List ℕ → Shutdown
close_down loops delay components sequences processes teardown = begin_loop loops (record {
  drivers = blocking_drivers components;
  monitors = blocking_monitors components;
  delay = delay;
  loops = loops;
  sequences = sequences;
  processes = processes;
  teardown = teardown;
  stage = at_delay;
  waits = [];
})

-- `schedule`, the part of `register` for a coroutine, and `add_teardown`, for a coroutine.
unfoldable pub schedule : Bool → ℕ → Shutdown → Shutdown
schedule blocking task s = if blocking then record s { sequences = s.sequences ++ task ∷ [] } else s

unfoldable pub register_process : ℕ → Shutdown → Shutdown
register_process proc s = record s { processes = s.processes ++ proc ∷ [] }

unfoldable pub add_teardown : ℕ → Shutdown → Shutdown
add_teardown coro s = record s { teardown = s.teardown ++ coro ∷ [] }

-- ===== src/Lib.antt =====
-- Forastero: verification library.
--
-- Forastero is a Python library for testbenches on cocotb. A testbench registers drivers, which
-- drive queued transactions onto an interface, and monitors, which publish the transactions
-- that they capture. A scoreboard has a channel per monitor: it pairs what the monitor captured
-- with what a model expects, and reports each pair as a match or a mismatch. Sequences
-- enqueue into drivers through proxies, in contexts that hold locks; an arbiter schedules the
-- sequences that wait for locks. Everything is built on a queue whose waiters are woken by the
-- next push, and on an emitter of events.
--
-- The files and the code they model:
--   Queue.antt         forastero/queue.py, Queue: a list, and the event of the next push.
--   Event.antt         forastero/event.py, EventEmitter: handlers, waiters, publications.
--   Transaction.antt   forastero/transaction.py, BaseTransaction: fields and comparison. Tabulate: the
--                      rows of `tabulate`.
--   Component.antt     forastero/component.py, Component. Idle: the loop of `idle`.
--   Monitor.antt       forastero/monitor.py, BaseMonitor: its loop, its captures and their handlers.
--                      Channels and Sampling: the way of a capture into a channel.
--   Channel.antt       forastero/scoreboard.py, Channel: the state, the pushes and `loop` with
--                      `_dequeue`; Channel/Drain.antt has `drain` and `_polling`. Window: the scan
--                      of the matching window. Moves: the abstract machine. Pairing and Invariant:
--                      where the loop can stand, and its segments. History and Account: runs. Progress:
--                      what the loop gets done.
--   Funnel.antt        forastero/scoreboard.py, FunnelChannel. Moves, Invariant and Pushes: as for
--                      Channel. Streams: several streams, interleaved, and a model that sorts them;
--                      Sources, Sound and Interleaved on what is paired, Live and Complete on what
--                      is left.
--   Scoreboard.antt    forastero/scoreboard.py, Scoreboard: `attach`, `result`, the loops by name;
--                      Scoreboard/Drain.antt has `drain`, Scoreboard/Reports.antt the reports of
--                      both classes of channels. Attach: the channels it makes and refuses. Kinds,
--                      Sound and Result: its verdict.
--   Driver.antt        forastero/driver.py and component.py, BaseDriver: `enqueue`, the fetching from
--                      the queue and `_driver_loop`. Order, Account and Runs: what is driven, in which
--                      order. Progress: how far the loop gets with its queue.
--   SeqLock.antt       forastero/sequence.py, SeqLock and its registries. Requests: which calls return
--                      one lock.
--   Arbiter.antt       forastero/sequence.py, SeqArbiter. Claims, Granted, Passes and Rounds: from one
--                      entry to a turn of `_manage`. Progress: rounds that can schedule an entry.
--   SeqContext.antt    forastero/sequence.py, SeqContext and SeqProxy. Ids: the constructor and the
--                      numbers of contexts.
--   RandomVariable.antt
--                      forastero/sequence.py, SeqRandomVariable.
--   Sequence.antt      forastero/sequence.py, BaseSequence. Refusals and Declare: what decorators
--                      refuse and declare. Call: how keyword arguments are matched with it. Registry: the sequencing functions that
--                      are known, and the decorators on them.
--   Signal.antt        forastero/io.py, SignalWrapper. RoundTrip: writing and reading.
--   Io.antt            forastero/io.py, BaseIO and the naming styles. Resolve: which signals there
--                      are. Access: reading and writing them.
--   Bench.antt         forastero/bench.py, BaseBench: `register`. Register: the names of components and
--                      of scoreboard channels. Bench/CloseDown.antt has `close_down`, `schedule` and
--                      `add_teardown`, with Phases and Order on the sequence of its waits, and Processes
--                      on the processes it waits for. Bench/Runner.antt has the run of a test, with
--                      `reset` and `initialise`; Prepared and Outcomes: how it ends.
--   Parameters.antt    forastero/bench.py, `strtobool`, `parse_parameters` and `get_parameter`. Lookup:
--                      which entry of a file is read.
--   Testcase.antt      forastero/bench.py, `testcase` and `parameter`, at decoration. Variants: the
--                      permutations of parameter values. Names and Register: the tests they become.
--   Stream.antt        examples/common/io/stream: the interface, its drivers and its monitor. Transfer:
--                      the three together.
--   Demo.antt          examples/arbiter_strict and examples/arbiter_window: the testbenches and their
--                      models. Stimuli and Sequences: the testcases, and the sequences of
--                      examples/common/io/stream/sequences.py. Drift and Accepted: what they do.
--   Prelude.antt       tests, lists over native numbers, integers, equality and texts, which all
--                      modules share, and dictionaries in Prelude/Dicts.antt.
-- The Examples module of a component runs it on small inputs.
--
-- Coroutines: asyncio gives control away at an await only. A coroutine is cut there: a state says
-- where it waits, and a function runs it from one await to the next. What other tasks do
-- in between comes as further steps, in any order; an order that the scheduler or a random generator
-- picks is an argument. A lock is a flag with, for SeqLock, its holder.
--
-- Values: ages, counts, indices, identities and handles of events are natural numbers, as Python's
-- integers have no bound; where the code asserts that a number is positive, as for a match window or
-- a bit width, what is given is any integer or a value of another type. Calls that raise return an Option or a constructor of their own.
-- Transactions have the fields of a subclass as a parameter with its `==`. Loops over lists are
-- structural recursion, and the endless loops of coroutines are sequences of turns. The loop of `idle`
-- alone runs on fuel, one unit for each edge of the clock: up to the first edge behind which the
-- component is not busy, the number of edges is enough.
--
-- Not code of this repository, and so an argument: the choices of random generators, the simulator's
-- time and signals, `str` and numerals of values, casts of parameters, what a driver's `drive` and the
-- body of a test do, and the layout of a table.
--
-- Not modelled: logging other than the reports, profiling and the interactive breakpoints,
-- the seeds of components and sequences, the locks that the call of a sequence creates by name, the
-- checks of the types of a range, and the design that the examples test, which is not Python.
mod Prelude
pub mod Queue
pub mod Transaction
pub mod Channel
pub mod SeqLock
pub mod Arbiter
pub mod Event
pub mod SeqContext
pub mod Funnel
pub mod Scoreboard
pub mod Driver
pub mod Signal
pub mod Io
pub mod RandomVariable
pub mod Sequence
pub mod Bench
pub mod Parameters
pub mod Testcase
pub mod Component
pub mod Monitor
pub mod Stream
pub mod Demo

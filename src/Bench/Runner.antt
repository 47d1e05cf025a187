-- ===== src/Bench/Runner.antt =====
-- forastero/bench.py, BaseBench.testcase: the run of one test, with the reset of the design.
--
-- A run is the list of what it does with its outcome. How the resets, the body of the test and the
-- shutdown end, and the scoreboard that they leave, are arguments; so are the components that the constructor of
-- the testbench creates, each known by a number.
pub mod Prepared
pub mod Outcomes
mod Examples
use Prim.Native.String.{String}
use forastero.Prelude.{
  ℕ, ◌+◌, List, [], ◌∷◌, ◌++◌, Option, none, some, Bool, true, false, not, ◌&&◌, ◌||◌,
  if◌then◌else◌, ltb, map, elem, take,
}
use forastero.Io.{IoRole, opposite}
use forastero.Scoreboard
use forastero.Scoreboard.{Scoreboard, Attached}

-- The keyword arguments of `testcase`.
pub record Options : Type 0 where
  pub reset : Bool
  pub timeout : Option ℕ
  pub shutdown_loops : ℕ
  pub shutdown_delay : ℕ
  pub reset_init : Bool
  pub reset_wait_during : ℕ
  pub reset_wait_after : ℕ

-- A registered component; `queued` is there for a driver.
pub record Entry : Type 0 where
  pub name : String
  pub ident : ℕ
  pub role : IoRole
  pub queued : Option ℕ

pub record Built : Type 0 where
  pub created : List ℕ
  pub components : List Entry
  pub rst_active_high : Bool
  pub clk_drive : Bool
  pub postmortem : Bool

pub data Event : Type 0 where
  clear_components : Event
  not_registered : ℕ → Event
  start_clock : Event
  drive_reset : Bool → Event
  initialise_io : String → IoRole → Event
  clock_cycles : ℕ → Event
  mark_ready : Event
  await_ready : String → Event
  run_test : ℕ → ℕ → Event
  items_remaining : String → ℕ → Event
  report : String → Event
  breakpoint : Event

-- How `_inner` ends; `ran_out` if not before the timeout, or never.
pub data Ending : Type 0 where
  completed raised ran_out : Ending

pub data Outcome : Type 0 where
  passed construction_error components_missing reset_raised test_raised : Outcome
  timed_out scoreboard_failed hanging : Outcome

-- `none` while the run goes on.
abbrev pub Run : Type 0
Run = List Event × Option Outcome

infixl 5 ◌>>◌
abbrev pub ◌>>◌ : Run → Run → Run
(events, some outcome) >> next = (events, some outcome)
(events, none) >> next = (events ++ next.0, next.1)

abbrev pub does : List Event → Run
does events = (events, none)

abbrev pub ends : Outcome → Run
ends outcome = ([], some outcome)

unfoldable pub initialise : Built → List Event
initialise b =
    drive_reset b.rst_active_high
    ∷ map (λ (c : Entry). initialise_io c.name (opposite c.role)) b.components

abbrev pub only_if : Bool → List Event → List Event
only_if true events = events
only_if false events = []

-- `reset(init, wait_during, wait_after)`.
unfoldable pub reset : Bool → ℕ → ℕ → Built → List Event
reset init wait_during wait_after b =
    drive_reset b.rst_active_high
    ∷ (only_if init (initialise b)
        ++ (only_if (ltb 0 wait_during) (clock_cycles wait_during ∷ [])
            ++ (drive_reset (not b.rst_active_high)
                ∷ only_if (ltb 0 wait_after) (clock_cycles wait_after ∷ []))))

-- The components that were created and not registered.
unfoldable pub missing : List ℕ → List ℕ → List ℕ
missing [] registered = []
missing (c ∷ created) registered =
    let rest = missing created registered in if elem c registered then rest else c ∷ rest

abbrev pub idents : List Entry → List ℕ
idents components = map (λ (c : Entry). c.ident) components

unfoldable pub refuse_missing : List ℕ → Run
refuse_missing [] = does []
refuse_missing (c ∷ cs) = (not_registered c ∷ map not_registered cs, some components_missing)

unfoldable pub check : Built → Run
check b = refuse_missing (missing b.created (idents b.components))

unfoldable pub start : Built → Run
start b = does (only_if b.clk_drive (start_clock ∷ []))

-- How the calls of `reset` end: each returns, or raises behind so many of its actions.
pub record Resets : Type 0 where
  pub first : Option ℕ
  pub second : Option ℕ

-- One call, whose exception is logged and raised again.
unfoldable pub pulse : Options → Built → Option ℕ → Run
pulse o b none = does (reset o.reset_init o.reset_wait_during o.reset_wait_after b)
pulse o b (some n) =
    (take n (reset o.reset_init o.reset_wait_during o.reset_wait_after b), some reset_raised)

-- Between the constructor and the mark that the testbench is ready: with a reset, the check, the
-- clock and the reset come a second time.
unfoldable pub prepare : Options → Built → Resets → Run
prepare o b r =
    let once = check b >> start b in
    if o.reset then once >> pulse o b r.first >> once >> pulse o b r.second else once

unfoldable pub await_all : Built → List Event
await_all b = map (λ (c : Entry). await_ready c.name) b.components

-- The busy drivers that are listed behind a timeout.
unfoldable pub busy_drivers : List Entry → List Event
busy_drivers [] = []
busy_drivers (c ∷ components) =
    let rest = busy_drivers components in
    elim c.queued [
      | none ↦ rest
      | some n ↦ if ltb 0 n then items_remaining c.name n ∷ rest else rest
    ]

-- `_inner`, with a timeout if there is one.
unfoldable pub run_inner : Options → Ending → Built → Run
run_inner o completed b = does (run_test o.shutdown_loops o.shutdown_delay ∷ [])
run_inner o raised b = (run_test o.shutdown_loops o.shutdown_delay ∷ [], some test_raised)
run_inner o ran_out b = elim o.timeout [
  | none ↦ (run_test o.shutdown_loops o.shutdown_delay ∷ [], some hanging)
  | some t ↦ does (run_test o.shutdown_loops o.shutdown_delay ∷ busy_drivers b.components)
]

unfoldable pub postponed : Ending → Bool
postponed ran_out = true
postponed _ = false

unfoldable pub conclude : Bool → Bool → Run
conclude true result = ends timed_out
conclude false true = ends passed
conclude false false = ends scoreboard_failed

module _ {F : Type 0} where
  unfoldable pub reports : List (String × Attached F) → List Event
  reports [] = []
  reports ((name, channel) ∷ channels) = report name ∷ reports channels

  -- Behind the test: the reports, the breakpoint of postmortem, and the verdict.
  unfoldable pub finish : Ending → Scoreboard F → Built → Run
  finish ending board b =
      does (reports board.channels)
      >> does (
          only_if (b.postmortem && (postponed ending || not (Scoreboard.result board)))
            (breakpoint ∷ []))
      >> conclude (postponed ending) (Scoreboard.result board)

  -- `_imposter_inner`; there is no testbench when its constructor raises.
  unfoldable pub imposter_inner : Options → Option Built → Resets → Ending → Scoreboard F → Run
  imposter_inner o none resets ending board =
      does (clear_components ∷ []) >> ends construction_error
  imposter_inner o (some b) resets ending board =
      does (clear_components ∷ [])
      >> prepare o b resets
      >> does (mark_ready ∷ await_all b)
      >> run_inner o ending b
      >> finish ending board b

-- ===== src/Bench.antt =====
-- forastero/bench.py, class BaseBench: what is registered with a testbench.
--
-- A component is known by its class and its `blocking` flag. `none` stands for an exception; the
-- testbench is then not used any more.
pub mod Kinds
pub mod Register
pub mod CloseDown
pub mod Runner
mod Examples
use Prim.Native.String.{String}
use mathlib.Core.Option
use forastero.Prelude.{
  ℕ, pos, List, [], ◌∷◌, ◌++◌, Option, none, some, Bool, true, false, ◌||◌, if◌then◌else◌, Eq,
  ◌=?=◌, string_eq,
}
use forastero.Transaction.{Transaction}
use forastero.Channel.{GivenWindow, integer, DrainPolicy, mon_and_ref}
use Kinds.{Registered, coroutine, driver, monitor, unsupported}
use forastero.Scoreboard
use forastero.Scoreboard.{Scoreboard, Settings, attach}

-- An argument that may come as `sb_…` or, of old, as `scoreboard_…`.
pub record Argument (A : Type 0) : Type 0 where
  pub sb : Option A
  pub old : Option (Option A)

pub record Arguments (F : Type 0) : Type 0 where
  pub scoreboard : Bool
  pub queues : Argument (List String)
  pub filter : Argument (Transaction F → Option (Transaction F))
  pub timeout_ns : Argument ℕ
  pub polling_ns : Argument ℕ
  pub drain_policy : Argument DrainPolicy
  pub match_window : Argument GivenWindow
  pub unexpected : List String

pub record Bench (F : Type 0) : Type 0 where
  pub components : List (String × Registered)
  pub processes : List String
  pub board : Scoreboard F

unfoldable pub merge : {A : Type 0} → Argument A → Option (Option A)
merge arg = elim arg.old [
  | none ↦ some arg.sb
  | some value ↦ elim arg.sb [ none ↦ some value | some _ ↦ none ]
]

infixl 5 ◌>>=◌
abbrev ◌>>=◌ : {A B : Type 0} → Option A → (A → Option B) → Option B
none >>= f = none
some x >>= f = f x

abbrev pub or_default : {A : Type 0} → A → Option A → A
or_default d none = d
or_default d (some x) = x

unfoldable pub no_unexpected : List String → Option (List String)
no_unexpected [] = some []
no_unexpected (key ∷ keys) = none

unfoldable pub has_component : String → List (String × Registered) → Bool
has_component name [] = false
has_component name ((key, x) ∷ table) = key =?= name || has_component name table

unfoldable pub has_process : String → List String → Bool
has_process name [] = false
has_process name (key ∷ processes) = key =?= name || has_process name processes

module _ {F : Type 0} where
  unfoldable pub new : Bool → Bench F
  new fail_fast = record { components = []; processes = []; board = Scoreboard.new fail_fast }

  -- `sb_args`, with the defaults.
  unfoldable pub settings : Arguments F → Option (Settings F)
  settings args = do
    queues ← merge args.queues
    filter ← merge args.filter
    timeout_ns ← merge args.timeout_ns
    polling_ns ← merge args.polling_ns
    drain_policy ← merge args.drain_policy
    match_window ← merge args.match_window
    rest ← no_unexpected args.unexpected
    some (record {
      filter_fn = filter;
      queues = or_default [] queues;
      timeout_ns = timeout_ns;
      drain_policy = or_default mon_and_ref drain_policy;
      match_window = some (or_default (integer (pos 1)) match_window);
    })

  abbrev pub with_component : String → Registered → Bench F → Scoreboard F → Bench F
  with_component name x b board = record b {
    components = b.components ++ (name, x) ∷ [];
    board = board;
  }

  -- A component: it is given its name, and a monitor is attached to the scoreboard under it.
  unfoldable pub add_component :
      String → Registered → Bool → Settings F → Bench F → Option (Bench F)
  add_component name x attached s b =
      if has_component name b.components
      then none
      else if attached
      then Option.map (with_component name x b) (attach name s b.board)
      else some (with_component name x b b.board)

  unfoldable pub register_with :
      String → Registered → Bool → Settings F → Bench F → Option (Bench F)
  register_with name coroutine scoreboard s b =
      if has_process name b.processes
      then none
      else some (record b { processes = b.processes ++ name ∷ [] })
  register_with name (driver blocking) scoreboard s b =
      add_component name (driver blocking) false s b
  register_with name (monitor blocking) scoreboard s b =
      add_component name (monitor blocking) scoreboard s b
  register_with name unsupported scoreboard s b = none

  unfoldable pub register : String → Registered → Arguments F → Bench F → Option (Bench F)
  register name x args b = elim (settings args) [
    | none ↦ none
    | some s ↦ register_with name x args.scoreboard s b
  ]

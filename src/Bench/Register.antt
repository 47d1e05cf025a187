-- ===== src/Bench/Register.antt =====
-- forastero/bench.py, BaseBench.register: the names of components and of scoreboard channels.
use Prim.Native.String.{String}
use forastero.Prelude.{◌≡◌, [], Option, none, some, Bool, true, string_eq}
use forastero.Scoreboard
use forastero.Scoreboard.{Scoreboard, Settings, has_channel}
use forastero.Scoreboard.Attach.{IsBadWindow}
use forastero.Bench.Kinds.{Registered}
use forastero.Bench.{Bench, Arguments, has_component, register, new}

module _ {F : Type 0} where
  -- The channels of the scoreboard are named after components.
  abbrev pub Covered : Bench F → Type 0
  Covered b =
      (n : String) → has_channel n b.board.channels ≡ true → has_component n b.components ≡ true

  abbrev pub CoveredIfSome : Option (Bench F) → Type 0
  CoveredIfSome none = Unit
  CoveredIfSome (some b) = Covered b

  -- The testbenches that a sequence of accepted registrations leads to.
  pub data Reached (fail_fast : Bool) : Bench F → Type 0 where
    start : Reached fail_fast (new fail_fast)
    registered :
        (name : String) (x : Registered) (args : Arguments F) (b b' : Bench F)
        → Reached fail_fast b
        → register name x args b ≡ some b'
        → Reached fail_fast b'

  -- A channel with one queue is asked for with a window that it refuses.
  abbrev pub IsBadlyWindowed : Settings F → Type 0
  IsBadlyWindowed s = (s.queues ≡ []) × IsBadWindow s.match_window

-- ===== src/Scoreboard.antt =====
-- forastero/scoreboard.py, class Scoreboard: the channels by name, their loops' calls of the
-- mismatch callback, and the verdict.
--
-- The dictionary of channels is a list in the order of attachment. Each channel's loop is a task
-- of its own: `turn` runs the loop of one channel up to its next await.
pub mod Attach
pub mod Kinds
pub mod Sound
pub mod Result
pub mod Drain
pub mod Reports
mod Examples
use Prim.Native.String.{String}
use forastero.Prelude.{
  ℕ, ◌+◌, List, [], ◌∷◌, ◌++◌, Option, none, some, Bool, true, false, ◌||◌, if◌then◌else◌, Eq,
  ◌=?=◌, string_eq, map, ◌==◌, length, drop,
}
use mathlib.Core.Option
use forastero.Transaction.{Transaction}
use forastero.Channel
use forastero.Channel.{Channel, Config, DrainPolicy, Report, GivenWindow, effective_window}
use forastero.Funnel
use forastero.Funnel.{Funnel}

-- The object behind a name: a Channel or a FunnelChannel.
pub data Kind (T : Type 0) : Type 0 where
  plain : Channel T → Kind T
  funnel : Funnel T → Kind T

pub record Attached (F : Type 0) : Type 0 where
  pub config : Config
  pub filter_fn : Option (Transaction F → Option (Transaction F))
  pub kind : Kind (Transaction F)

-- An entry of `_mismatches`.
pub record Mismatch (F : Type 0) : Type 0 where
  pub channel : String
  pub monitor : Transaction F
  pub reference : Transaction F

pub record Scoreboard (F : Type 0) : Type 0 where
  pub fail_fast : Bool
  pub channels : List (String × Attached F)
  pub mismatches : List (Mismatch F)

-- The arguments of `attach` behind the monitor; `queues` is empty for None.
pub record Settings (F : Type 0) : Type 0 where
  pub filter_fn : Option (Transaction F → Option (Transaction F))
  pub queues : List String
  pub timeout_ns : Option ℕ
  pub drain_policy : DrainPolicy
  pub match_window : Option GivenWindow

module _ {F : Type 0} where
  unfoldable pub new : Bool → Scoreboard F
  new fail_fast = record { fail_fast = fail_fast; channels = []; mismatches = [] }

  unfoldable pub has_channel : String → List (String × Attached F) → Bool
  has_channel name [] = false
  has_channel name ((key, a) ∷ channels) = key =?= name || has_channel name channels

  -- The `if` of `attach`: with queue names a funnel, whose window is the default. `none` stands for
  -- the AssertionError of the channel's constructor.
  unfoldable pub make_channel : Bool → Settings F → List String → Option (Attached F)
  make_channel fail_fast s [] =
      Option.map
        (λ match_window. record {
          config = record {
            timeout_ns = s.timeout_ns;
            drain_policy = s.drain_policy;
            match_window = match_window;
            fail_fast = fail_fast;
          };
          filter_fn = s.filter_fn;
          kind = plain Channel.new;
        })
        (effective_window s.match_window)
  make_channel fail_fast s (queue ∷ queues) = some (record {
    config = record {
      timeout_ns = s.timeout_ns;
      drain_policy = s.drain_policy;
      match_window = 1;
      fail_fast = fail_fast;
    };
    filter_fn = s.filter_fn;
    kind = funnel (Funnel.new (queue ∷ queues));
  })

  abbrev pub with_channel : String → Scoreboard F → Attached F → Scoreboard F
  with_channel name board a = record board { channels = board.channels ++ (name, a) ∷ [] }

  -- `none` also stands for the AssertionError of a name that is known.
  unfoldable pub attach : String → Settings F → Scoreboard F → Option (Scoreboard F)
  attach name s board =
      if has_channel name board.channels
      then none
      else Option.map (with_channel name board) (make_channel board.fail_fast s s.queues)

  -- The calls of `_mismatch` among a loop's new reports.
  unfoldable pub mismatch_calls : String → List (Report (Transaction F)) → List (Mismatch F)
  mismatch_calls name [] = []
  mismatch_calls name (r ∷ reports) =
      let later = mismatch_calls name reports in
      if r.equal
      then later
      else record { channel = name; monitor = r.mon; reference = r.ref } ∷ later

  unfoldable pub base_of : Kind (Transaction F) → Channel (Transaction F)
  base_of (plain c) = c
  base_of (funnel c) = c.base

  unfoldable pub result : Scoreboard F → Bool
  result board = length board.mismatches == 0

  -- A callback's new reports, beside the reports that were there.
  unfoldable pub calls_since :
      String → Kind (Transaction F) → Kind (Transaction F) → List (Mismatch F)
  calls_since name before after =
      mismatch_calls name (drop (length (base_of before).reports) (base_of after).reports)

module _ {F : Type 0} ⦃e : Eq F⦄ where
  unfoldable pub advance_kind : Config → Kind (Transaction F) → Kind (Transaction F)
  advance_kind cfg (plain c) = plain (Channel.advance cfg c)
  advance_kind cfg (funnel c) = funnel (Funnel.advance cfg c)

  -- The monitor of a channel captures a transaction.
  unfoldable pub sample_kind :
      Option (Transaction F → Option (Transaction F))
      → Transaction F
      → Kind (Transaction F)
      → Kind (Transaction F)
  sample_kind filter_fn t (plain c) = plain (Channel.sample filter_fn t c)
  sample_kind filter_fn t (funnel c) =
      funnel (record c { base = Channel.sample filter_fn t c.base })

  -- `push_reference` of the channel's class. `none` for a call that the class refuses.
  unfoldable pub reference_kind :
      Option String → Transaction F → Kind (Transaction F) → Option (Kind (Transaction F))
  reference_kind none t (plain c) = some (plain (Channel.push_reference t c))
  reference_kind (some queue) t (plain c) = none
  reference_kind none t (funnel c) = none
  reference_kind (some queue) t (funnel c) = Option.map funnel (Funnel.push_reference queue t c)

  unfoldable pub turn_at :
      String → List (String × Attached F) → List (String × Attached F) × List (Mismatch F)
  turn_at name [] = ([], [])
  turn_at name ((key, a) ∷ channels) =
      let kind = advance_kind a.config a.kind in
      let (later, calls) = turn_at name channels in
      if key =?= name
      then ((key, record a { kind = kind }) ∷ channels, calls_since key a.kind kind)
      else ((key, a) ∷ later, calls)

  unfoldable pub turn : String → Scoreboard F → Scoreboard F
  turn name board =
      let (channels, calls) = turn_at name board.channels in
      record board { channels = channels; mismatches = board.mismatches ++ calls }

  -- A channel object is changed in place, by the monitor or by a call of the testbench.
  unfoldable pub change_at :
      String
      → (Attached F → Option (Kind (Transaction F)))
      → List (String × Attached F)
      → Option (List (String × Attached F))
  change_at name f [] = none
  change_at name f ((key, a) ∷ channels) =
      let later = change_at name f channels in
      if key =?= name
      then Option.map (λ kind. (key, record a { kind = kind }) ∷ channels) (f a)
      else Option.map (λ channels'. (key, a) ∷ channels') later

  unfoldable pub change :
      String → (Attached F → Option (Kind (Transaction F))) → Scoreboard F → Option (Scoreboard F)
  change name f board =
      Option.map (λ channels. record board { channels = channels })
        (change_at name f board.channels)

  unfoldable pub capture : String → Transaction F → Scoreboard F → Option (Scoreboard F)
  capture name t board = change name (λ a. some (sample_kind a.filter_fn t a.kind)) board

  -- `scoreboard.channels[name].push_reference(…)`; `none` for an exception.
  unfoldable pub push_reference :
      String → Option String → Transaction F → Scoreboard F → Option (Scoreboard F)
  push_reference name queue t board = change name (λ a. reference_kind queue t a.kind) board

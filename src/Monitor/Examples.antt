-- ===== src/Monitor/Examples.antt =====
-- A monitor with a filter on a scoreboard of one channel.
use Prim.Native.String.{String}
use forastero.Prelude.{
  ℕ, ◌*◌, ◌≡◌, ◌≢◌, refl, List, [], ◌∷◌, none, some, true, false, nat_eq, length, ltb,
  if◌then◌else◌, string_eq,
}
use forastero.Transaction.{Transaction}
use forastero.Channel.{mon_and_ref}
use forastero.Channel
use forastero.Event as Emitter
use forastero.Scoreboard
use forastero.Scoreboard.Attach.{plain_channel}
use forastero.Scoreboard.{Scoreboard, Settings, Attached, attach}
use forastero.Monitor
use forastero.Monitor.{Monitor, Handler, new, advance, watch, captures, not_implemented, monitoring}
use forastero.Monitor.Channels.{channel_of, entries, filtered}
use forastero.Monitor.Sampling.{captures-filtered}

program : Unit {0}
unfolding new advance watch Monitor.resume Emitter.new Emitter.subscribe attach Scoreboard.new
    Scoreboard.has_channel Scoreboard.make_channel Channel.new Channel.effective_window
program = tt

run_ready : (advance {H = ℕ} true (advance true new)).is_ready ≡ true
unfolding program
run_ready = refl

run_placeholder : (advance {H = ℕ} false (advance false new)).stage ≡ not_implemented
unfolding program
run_placeholder = refl

abbrev tx : ℕ → ℕ → Transaction ℕ
tx i v = record { ident = i; timestamp = 10 * i; f_event = none; c_event = none; fields = v }

-- A filter that drops values from 8 on.
abbrev settings : Settings ℕ
settings = record {
  filter_fn = some (λ t. if ltb t.fields 8 then some t else none);
  queues = [];
  timeout_ns = none;
  drain_policy = mon_and_ref;
  match_window = none;
}

abbrev board : Scoreboard ℕ
board = record {
  fail_fast = false;
  channels = ("x", plain_channel false settings 1) ∷ [];
  mismatches = [];
}

abbrev monitor : Monitor ℕ
monitor = record {
  captured = 0;
  is_ready = false;
  stage = Monitor.at_ready;
  emitter = record {
    handlers = (Emitter.on Monitor.capture, Monitor.sampler "x") ∷ [];
    waiting = [];
  };
}

abbrev two : List (Transaction ℕ)
two = tx 1 5 ∷ tx 2 9 ∷ []

captures-filtered_example :
    (m' : Monitor ℕ) × (final : Scoreboard ℕ) × (a : Attached ℕ) × (captures
        (λ h t b. b)
        two
        (monitor, board)
      ≡ some (m', final))
    × (m'.captured ≡ length two)
    × (channel_of "x" final.channels ≡ some a)
    × (entries a ≡ filtered settings.filter_fn two)
    × ((n : String) → n ≢ "x" → channel_of n final.channels ≡ channel_of n board.channels)
unfolding program
captures-filtered_example =
    captures-filtered (λ (h : ℕ) t b. b) "x" settings (Scoreboard.new false) board monitor two refl
      refl

-- ===== src/Demo/Examples.antt =====
-- The testbenches, their models and their stimuli on small inputs.
use mathlib.Core.Option
use forastero.Prelude.{ℕ, ◌+◌, ◌*◌, ◌≤◌, ◌≡◌, refl, [], ◌∷◌, some, false, nat_eq, length, All, map}
use forastero.Channel
use forastero.Funnel
use forastero.Scoreboard
use forastero.Scoreboard.{Scoreboard}
use forastero.Bench
use forastero.Bench.{Bench}
use forastero.Demo
use forastero.Demo.{
  strict_testbench, window_testbench, strict_model, window_model, a_init, b_init, set_bit_32,
}
use forastero.Demo.Stimuli
use forastero.Demo.Stimuli.{word, window_random}
use forastero.Demo.Drift.{window_random_drift}
use forastero.Demo.Sequences.{random_seq}
use forastero.Demo.Accepted.{Accepted, blocking, random_seq-Accepted}

program : Unit {0}
unfolding strict_testbench window_testbench Demo.stream_drivers Bench.register Bench.settings
    Bench.register_with Bench.add_component Bench.merge Bench.no_unexpected Bench.has_process
    Bench.has_component Bench.new Scoreboard.new Scoreboard.attach Scoreboard.has_channel
    Scoreboard.make_channel Channel.new Channel.effective_window Funnel.new Funnel.add_queue
    Funnel.add_queues Funnel.has_queue window_random Stimuli.goes_to_a
program = tt

-- The testbenches are built, with one channel on the scoreboard.
run_strict :
    Option.map (λ (b : Bench ℕ). map (λ p. p.0) b.board.channels) (strict_testbench false)
    ≡ some ("x_mon" ∷ [])
unfolding program
run_strict = refl

run_window :
    Option.map (λ (b : Bench ℕ). map (λ p. p.0) b.components) (window_testbench false)
    ≡ some ("a_init" ∷ "b_init" ∷ "x_resp" ∷ "x_mon" ∷ [])
unfolding program
run_window = refl

run_set_bit : set_bit_32 5 ≡ 4294967301
unfolding set_bit_32
run_set_bit = refl

-- When no coin falls on A, B goes ahead by three.
run_drift : length (window_random (λ n. n) (λ n. false) 3 0 0 0).on_b ≡ 3
unfolding program
run_drift = refl

window_random_drift_example :
    let sent = window_random (λ n. n) (λ n. false) 5 0 0 0 in
    (length sent.on_a + length sent.on_b ≡ 5)
    × (length sent.on_a ≤ length sent.on_b + 2)
    × (length sent.on_b ≤ length sent.on_a + 3)
window_random_drift_example = window_random_drift (λ n. n) (λ n. false) 5

random_seq-Accepted_example :
    All Accepted (random_seq 2000 10 100 500)
    × (length (blocking (random_seq 2000 10 100 500)) ≡ 2 + 2 * 10)
random_seq-Accepted_example = random_seq-Accepted 2000 10 100 500

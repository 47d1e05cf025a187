-- ===== src/Demo/Drift.antt =====
-- examples/arbiter_window, testcase random: how far the two streams drift apart.
use forastero.Prelude.{
  ℕ, zero, suc, ◌+◌, ◌≤◌, ◌≡◌, Bool, true, false, length, arith, Bool-cases, inl, inr,
}
use forastero.Demo.Stimuli.{goes_to_a, window_random}

-- A may be ahead by two at most, and B by three.
abbrev pub Close : ℕ → ℕ → Type 0
Close num_a num_b = (num_a ≤ num_b + 2) × (num_b ≤ num_a + 3)

goes_to_a-Close :
    (coin : Bool) (num_a num_b : ℕ)
    → Close num_a num_b
    → goes_to_a coin num_a num_b ≡ true
    → Close (num_a + 1) num_b
unfolding goes_to_a
goes_to_a-Close coin num_a num_b close h = ground arith

goes_to_b-Close :
    (coin : Bool) (num_a num_b : ℕ)
    → Close num_a num_b
    → goes_to_a coin num_a num_b ≡ false
    → Close num_a (num_b + 1)
unfolding goes_to_a
goes_to_b-Close coin num_a num_b close h = ground arith

window_random-Close :
    (bits : ℕ → ℕ) (coin : ℕ → Bool) (packets next num_a num_b : ℕ)
    → Close num_a num_b
    → let sent = window_random bits coin packets next num_a num_b in
      (length sent.on_a + length sent.on_b ≡ packets)
      × Close (num_a + length sent.on_a) (num_b + length sent.on_b)
unfolding window_random
window_random-Close bits coin zero next num_a num_b close = omega arith
window_random-Close bits coin (suc packets) next num_a num_b close =
    elim (Bool-cases (goes_to_a (coin next) num_a num_b)) [
      | inl on_a ↦
          let rest =
            window_random-Close bits coin packets (next + 1) (num_a + 1) num_b
              (goes_to_a-Close (coin next) num_a num_b close on_a) in
          simp (on_a, window_random) (omega (arith, rest.0, rest.1.0, rest.1.1))
      | inr on_b ↦
          let rest =
            window_random-Close bits coin packets (next + 1) num_a (num_b + 1)
              (goes_to_b-Close (coin next) num_a num_b close on_b) in
          simp (on_b, window_random) (omega (arith, rest.0, rest.1.0, rest.1.1))
    ]

-- Whatever is drawn, the window testcase enqueues as many transactions as packets are asked for, and
-- for every number of them A has at most two more than B, and B at most three more than A.
pub window_random_drift :
    (bits : ℕ → ℕ) (coin : ℕ → Bool) (packets : ℕ)
    → let sent = window_random bits coin packets 0 0 0 in
      (length sent.on_a + length sent.on_b ≡ packets)
      × (length sent.on_a ≤ length sent.on_b + 2)
      × (length sent.on_b ≤ length sent.on_a + 3)
window_random_drift bits coin packets =
    let (all_sent, (a_close, b_close)) =
      window_random-Close bits coin packets 0 0 0 (omega arith) in
    (all_sent, omega (arith, a_close), omega (arith, b_close))

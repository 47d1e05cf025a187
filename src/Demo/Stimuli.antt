-- ===== src/Demo/Stimuli.antt =====
-- examples/arbiter_strict and examples/arbiter_window, testcases random and random_iter: what they
-- enqueue into the drivers of A and B. `bits n` is the n-th draw of `getrandbits(32)`, and `coin n`
-- the choice for the n-th packet.
use forastero.Prelude.{ℕ, zero, suc, ◌+◌, List, [], ◌∷◌, ◌++◌, Bool, true, false, ◌&&◌, ◌||◌, ltb}
use forastero.Stream.{StreamTransaction, StreamBackpressure}

pub record Enqueued (A : Type 0) : Type 0 where
  pub on_a : List A
  pub on_b : List A

abbrev pub word : ℕ → StreamTransaction
word data_word = record { data_word = data_word }

abbrev pub both :
    StreamTransaction → StreamTransaction → Enqueued StreamTransaction → Enqueued StreamTransaction
both a b later = record { on_a = a ∷ later.on_a; on_b = b ∷ later.on_b }

-- The loop of `random` in arbiter_strict.
unfoldable pub strict_random : (ℕ → ℕ) → ℕ → ℕ → Enqueued StreamTransaction
strict_random bits zero next = record { on_a = []; on_b = [] }
strict_random bits (suc packets) next =
    both (word (bits next)) (word (bits (next + 1))) (strict_random bits packets (next + 2))

-- The loop of `random` in arbiter_window, with its counts so far.
unfoldable pub goes_to_a : Bool → ℕ → ℕ → Bool
goes_to_a coin num_a num_b = ltb (num_a + 2) num_b || (ltb num_a (num_b + 2) && coin)

abbrev pub to_a : StreamTransaction → Enqueued StreamTransaction → Enqueued StreamTransaction
to_a obj later = record later { on_a = obj ∷ later.on_a }

abbrev pub to_b : StreamTransaction → Enqueued StreamTransaction → Enqueued StreamTransaction
to_b obj later = record later { on_b = obj ∷ later.on_b }

unfoldable pub window_random : (ℕ → ℕ) → (ℕ → Bool) → ℕ → ℕ → ℕ → ℕ → Enqueued StreamTransaction
window_random bits coin zero next num_a num_b = record { on_a = []; on_b = [] }
window_random bits coin (suc packets) next num_a num_b =
    let obj = word (bits next) in
    elim (goes_to_a (coin next) num_a num_b) [
      | true ↦ to_a obj (window_random bits coin packets (next + 1) (num_a + 1) num_b)
      | false ↦ to_b obj (window_random bits coin packets (next + 1) num_a (num_b + 1))
    ]

-- What `random_iter` enqueues: single transactions, and generators of so many of them.
pub data Stimulus : Type 0 where
  single : StreamTransaction → Stimulus
  generator : ℕ → Stimulus

unfoldable pub singles : (ℕ → ℕ) → ℕ → ℕ → List Stimulus
singles bits zero next = []
singles bits (suc n) next = single (word (bits next)) ∷ singles bits n (next + 1)

unfoldable pub random_iter : (ℕ → ℕ) → ℕ → Enqueued Stimulus
random_iter bits packets = record {
  on_a = singles bits 20 0 ++ generator packets ∷ [];
  on_b = generator packets ∷ singles bits 20 20;
}

-- `_rand_bp`, with what it draws.
unfoldable pub rand_bp : Bool → ℕ → StreamBackpressure
rand_bp ready cycles = record { ready = ready; cycles = cycles }

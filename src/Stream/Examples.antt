-- ===== src/Stream/Examples.antt =====
-- Three transactions under backpressure, at an interface with and without its ready signal.
use forastero.Prelude.{ℕ, ◌≡◌, refl, List, [], ◌∷◌, map, Option, none, some, true, false, take}
use forastero.Io
use forastero.Signal.{SignalWrapper}
use forastero.Stream
use forastero.Stream.{
  Word, StreamTransaction, StreamBackpressure, monitor, edges_of, levels_of, begin, stream_io,
}
use forastero.Stream.Transfer.{transfer, fit, reset_initiator, ready_cycles}

program : Unit {0}
unfolding monitor edges_of levels_of begin stream_io Stream.initiator_edge Stream.get_word
    Stream.set_word Io.new Io.resolve Io.find Io.io_prefix_style Io.direction
program = tt

abbrev one_bit : SignalWrapper
one_bit = record { packing = []; width = 1 }

abbrev tx : ℕ → StreamTransaction
tx v = record { data_word = v }

abbrev word_of : ℕ → Option Word
word_of level = some (record { width = 8; level = level })

abbrev pressure : List StreamBackpressure
pressure =
    record { ready = true; cycles = 1 }
    ∷ record { ready = false; cycles = 2 }
    ∷ record { ready = true; cycles = 1 }
    ∷ []

run_two :
    monitor (edges_of (levels_of pressure) (begin (reset_initiator 8) (tx 4 ∷ tx 5 ∷ tx 6 ∷ [])))
    ≡ tx 4 ∷ tx 5 ∷ []
unfolding program
run_two = refl

-- Without a ready signal each edge with valid high is a capture, but none in reset.
run_no_ready :
    monitor (
      record { in_reset = true; valid = some true; ready = none; word = word_of 1 }
      ∷ record { in_reset = false; valid = some true; ready = none; word = word_of 2 }
      ∷ record { in_reset = false; valid = some false; ready = none; word = word_of 3 }
      ∷ [])
    ≡ tx 2 ∷ []
unfolding program
run_no_ready = refl

-- Data that is wider than the signal.
run_masked : monitor (edges_of (true ∷ []) (begin (reset_initiator 8) (tx 260 ∷ []))) ≡ tx 4 ∷ []
unfolding program
run_masked = refl

transfer_example :
    monitor (edges_of (levels_of pressure) (begin (reset_initiator 8) (tx 4 ∷ tx 5 ∷ tx 6 ∷ [])))
    ≡ take (ready_cycles pressure) (map (fit 8) (tx 4 ∷ tx 5 ∷ tx 6 ∷ []))
transfer_example = transfer 8 (tx 4 ∷ tx 5 ∷ tx 6 ∷ []) pressure

-- The names of the signals of stream A, by which the testbenches find them.
run_stream_io :
    (stream_io {V = ℕ} Io.io_prefix_style
      (("i_a_data", one_bit) ∷ ("i_a_valid", one_bit) ∷ ("o_a_ready", one_bit) ∷ [])
      (some "a")
      Io.responder).responders
    ≡ ("ready", "o_a_ready") ∷ []
unfolding program
run_stream_io = refl

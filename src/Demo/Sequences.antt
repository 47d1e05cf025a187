-- ===== src/Demo/Sequences.antt =====
-- examples/common/io/stream/sequences.py, and testcases random_seq of examples/arbiter_strict and
-- examples/arbiter_window: sequences, what their bodies do, and what the testcase schedules.
--
-- An argument is a component of a class, a number, or a pair of numbers for a range. The range of
-- `backpressure` is in tenths.
use forastero.Prelude.{
  ℕ, zero, suc, ◌+◌, List, [], ◌∷◌, ◌++◌, Option, none, some, Bool, true, false, Text, text,
}
use forastero.RandomVariable.{random_variable, of_type}
use forastero.Sequence
use forastero.Sequence.{BaseSequence, Kwds, Result, Launch, add_requirement, add_randarg}
use forastero.Stream.{StreamTransaction, StreamBackpressure}
use forastero.Demo.Stimuli.{word}

pub data Class : Type 0 where
  stream_initiator stream_responder : Class

pub data Arg : Type 0 where
  component : Class → ℕ → Arg
  number : ℕ → Arg
  pair : ℕ → ℕ → Arg

unfoldable pub isinstance : Class → Arg → Bool
isinstance stream_initiator (component stream_initiator n) = true
isinstance stream_responder (component stream_responder n) = true
isinstance class arg = false

infixl 5 ◌>>=◌
abbrev ◌>>=◌ : {A B : Type 0} → Option A → (A → Option B) → Option B
none >>= f = none
some x >>= f = f x

-- The decorators, of which the lowest comes first.
abbrev pub Seq : Type 0
Seq = BaseSequence Class Arg

abbrev pub ranged : Text → ℕ → ℕ → Seq → Option Seq
ranged name low high s = do
  rv ← random_variable name none (some (of_type (number low, number high))) none
  some (add_randarg rv s)

abbrev pub sequence : Bool → Seq → Option Seq
sequence auto_lock s = some (record s { auto_lock = auto_lock })

unfoldable pub stream_traffic_seq : Option Seq
stream_traffic_seq = do
  with_length ← ranged (text "length") 100 1000 (Sequence.new false)
  with_stream ← add_requirement (text "stream") stream_initiator with_length
  sequence false with_stream

unfoldable pub stream_backpressure_seq : Option Seq
stream_backpressure_seq = do
  s1 ← ranged (text "backpressure") 1 9 (Sequence.new false)
  s2 ← ranged (text "max_interval") 10 20 s1
  s3 ← ranged (text "min_interval") 1 10 s2
  s4 ← add_requirement (text "stream") stream_responder s3
  sequence false s4

unfoldable pub burst_on_a_only : Option Seq
burst_on_a_only = do
  with_length ← ranged (text "length") 1000 3000 (Sequence.new false)
  with_b ← add_requirement (text "stream_b") stream_initiator with_length
  with_a ← add_requirement (text "stream_a") stream_initiator with_b
  sequence true with_a

-- What the body of a sequence does.
pub data Step : Type 0 where
  locks unlocks : Text → Step
  idles : Text → Step
  enqueues : Text → StreamTransaction → Step
  enqueues_and_waits : Text → StreamBackpressure → Step

-- The loop of `stream_traffic_seq`, from a draw of the context's generator on.
unfoldable pub traffic : (ℕ → ℕ) → ℕ → ℕ → List Step
traffic bits zero next = []
traffic bits (suc length) next =
    locks (text "stream")
    ∷ enqueues (text "stream") (word (bits next))
    ∷ unlocks (text "stream")
    ∷ traffic bits length (next + 1)

-- So many rounds of the endless loop of `stream_backpressure_seq`, from what it draws.
unfoldable pub backpressure_rounds : (ℕ → StreamBackpressure) → ℕ → ℕ → List Step
backpressure_rounds draws zero next = []
backpressure_rounds draws (suc rounds) next =
    enqueues_and_waits (text "stream") (draws next) ∷ backpressure_rounds draws rounds (next + 1)

unfoldable pub backpressure : (ℕ → StreamBackpressure) → ℕ → List Step
backpressure draws rounds = locks (text "stream") ∷ backpressure_rounds draws rounds 0

unfoldable pub burst_loop : (ℕ → ℕ) → ℕ → ℕ → List Step
burst_loop bits zero next = []
burst_loop bits (suc length) next =
    enqueues (text "stream_a") (word (bits next)) ∷ burst_loop bits length (next + 1)

unfoldable pub burst : (ℕ → ℕ) → ℕ → List Step
burst bits length =
    idles (text "stream_a")
    ∷ idles (text "stream_b")
    ∷ (burst_loop bits length 0 ++ idles (text "stream_a") ∷ [])

-- A call of a sequence that is scheduled, blocking or not.
pub data Called : Type 0 where
  traffic_seq backpressure_seq burst_seq : Kwds Arg → Bool → Called

abbrev pub a_init : Arg
a_init = component stream_initiator 0

abbrev pub b_init : Arg
b_init = component stream_initiator 1

abbrev pub x_resp : Arg
x_resp = component stream_responder 2

abbrev pub burst_call : Arg → Arg → ℕ → ℕ → Called
burst_call stream_a stream_b burst_min burst_max =
    burst_seq
      ((text "stream_a", stream_a)
        ∷ (text "stream_b", stream_b)
        ∷ (text "length_range", pair burst_min burst_max)
        ∷ [])
      true

unfoldable pub bursts : ℕ → ℕ → ℕ → List Called
bursts zero burst_min burst_max = []
bursts (suc burst_count) burst_min burst_max =
    burst_call a_init b_init burst_min burst_max
    ∷ burst_call b_init a_init burst_min burst_max
    ∷ bursts burst_count burst_min burst_max

abbrev pub traffic_call : Arg → ℕ → Called
traffic_call stream single_pkts =
    traffic_seq ((text "stream", stream) ∷ (text "length", number single_pkts) ∷ []) true

unfoldable pub random_seq : ℕ → ℕ → ℕ → ℕ → List Called
random_seq single_pkts burst_count burst_min burst_max =
    traffic_call a_init single_pkts
    ∷ traffic_call b_init single_pkts
    ∷ (bursts burst_count burst_min burst_max
        ++ backpressure_seq ((text "stream", x_resp) ∷ []) false ∷ [])

abbrev calls : Option Seq → Kwds Arg → Option (Result (Launch Arg))
calls none kwds = none
calls (some s) kwds = some (Sequence.call isinstance s kwds)

unfoldable pub launch : Called → Option (Result (Launch Arg))
launch (traffic_seq kwds blocking) = calls stream_traffic_seq kwds
launch (backpressure_seq kwds blocking) = calls stream_backpressure_seq kwds
launch (burst_seq kwds blocking) = calls burst_on_a_only kwds

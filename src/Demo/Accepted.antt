-- ===== src/Demo/Accepted.antt =====
-- examples/arbiter_strict and examples/arbiter_window, testcase random_seq: its calls fit the
-- declarations of the sequences.
use forastero.Prelude.{
  ℕ, zero, suc, ◌≡◌, refl, List, [], ◌∷◌, ◌++◌, some, Bool, true, false, not, All, All-append,
  length, ◌+◌, ◌*◌, arith, text, text_eq,
}
use forastero.RandomVariable
use forastero.RandomVariable.{Draw, fixed, given, between, by_range}
use forastero.Sequence
use forastero.Sequence.{Result, ok, Launch}
use forastero.Demo.Sequences.{
  Arg, Called, a_init, b_init, x_resp, burst_call, traffic_call, bursts, random_seq, launch,
  backpressure_seq, traffic_seq, burst_seq, isinstance, stream_traffic_seq, stream_backpressure_seq,
  burst_on_a_only,
}

-- The blocking sequences among some calls.
abbrev pub blocking : List Called → List Called
blocking [] = []
blocking (traffic_seq kwds true ∷ calls) = traffic_seq kwds true ∷ blocking calls
blocking (backpressure_seq kwds true ∷ calls) = backpressure_seq kwds true ∷ blocking calls
blocking (burst_seq kwds true ∷ calls) = burst_seq kwds true ∷ blocking calls
blocking (_ ∷ calls) = blocking calls

-- A burst locks both of its streams as it starts.
abbrev pub is_burst : Called → Bool
is_burst (burst_seq kwds blocks) = true
is_burst _ = false

-- The sequence of backpressure has no end.
abbrev pub is_endless : Called → Bool
is_endless (backpressure_seq kwds blocks) = true
is_endless _ = false

-- Whether the test waits for the end of the call's sequence.
abbrev pub blocks : Called → Bool
blocks (traffic_seq kwds b) = b
blocks (backpressure_seq kwds b) = b
blocks (burst_seq kwds b) = b

-- The call launches its sequence, which is a burst if it runs in a lock context, and the test waits
-- for it unless it is endless.
abbrev pub Accepted : Called → Type 0
Accepted c =
    (l : Launch Arg) × (launch c ≡ some (ok l))
    × (l.locked ≡ is_burst c)
    × (blocks c ≡ not (is_endless c))

program : Unit {0}
unfolding launch isinstance stream_traffic_seq stream_backpressure_seq burst_on_a_only Sequence.new
    Sequence.call Sequence.take_components Sequence.launch Sequence.take_randargs Sequence.choose
    Sequence.delete_all Sequence.delete Sequence.lookup Sequence.overrides_of Sequence.listed
    Sequence.mode_of Sequence.overridden Sequence.has_key Sequence.clean Sequence.add_requirement
    Sequence.add_randarg Sequence.put RandomVariable.random_variable RandomVariable.varnames
    RandomVariable.suffixed RandomVariable.suffix_text RandomVariable.randomise
    RandomVariable.default_draw
program = tt

traffic_call-Accepted :
    (n : ℕ) → Accepted (traffic_call a_init n) × Accepted (traffic_call b_init n)
unfolding program
traffic_call-Accepted n = ((_, refl, refl, refl), (_, refl, refl, refl))

burst_call-Accepted :
    (low high : ℕ)
    → Accepted (burst_call a_init b_init low high) × Accepted (burst_call b_init a_init low high)
unfolding program
burst_call-Accepted low high = ((_, refl, refl, refl), (_, refl, refl, refl))

backpressure-Accepted : Accepted (backpressure_seq ((text "stream", x_resp) ∷ []) false)
unfolding program
backpressure-Accepted = (_, refl, refl, refl)

bursts-Accepted : (n low high : ℕ) → All Accepted (bursts n low high)
unfolding bursts
bursts-Accepted zero low high = tt
bursts-Accepted (suc n) low high =
    let (on_a, on_b) = burst_call-Accepted low high in (on_a, (on_b, bursts-Accepted n low high))

bursts-blocking :
    (n low high : ℕ) (rest : List Called)
    → length (blocking (bursts n low high ++ rest)) ≡ 2 * n + length (blocking rest)
unfolding bursts
bursts-blocking zero low high rest = omega arith
bursts-blocking (suc n) low high rest = omega (arith, bursts-blocking n low high rest)

-- Every call that random_seq schedules is accepted by its sequence: the components are of the classes
-- that are required, no argument has two overrides, and exactly the bursts are launched in a lock
-- context. A call is blocking exactly if it is not one of the endless sequence of backpressure, and
-- the blocking ones are two of traffic and two for each burst.
pub random_seq-Accepted :
    (single_pkts burst_count burst_min burst_max : ℕ)
    → All Accepted (random_seq single_pkts burst_count burst_min burst_max)
      × (length (blocking (random_seq single_pkts burst_count burst_min burst_max))
          ≡ 2 + 2 * burst_count)
unfolding random_seq
random_seq-Accepted single_pkts burst_count burst_min burst_max =
    let (on_a, on_b) = traffic_call-Accepted single_pkts in
    (
      (
        on_a,
        (
          on_b,
          All-append Accepted (bursts burst_count burst_min burst_max) _
              (bursts-Accepted burst_count burst_min burst_max) (backpressure-Accepted, tt),
        ),
      ),
      omega (
        arith,
        bursts-blocking burst_count burst_min burst_max
            (backpressure_seq ((text "stream", x_resp) ∷ []) false ∷ []),
      ),
    )

-- ===== src/Funnel/Examples.antt =====
-- A small funnel channel, and the theorem about its loop at a concrete input.
use Prim.Native.String.{String}
use forastero.Prelude.{
  ◌+◌, List, ◌++◌, inl, inr, ap, subst, sym, Bool-cases, if◌then◌else◌, ◌=?=◌, ltb, string_eq,
  length, replicate, ◌∙◌, ℕ, ◌≡◌, refl, [], ◌∷◌, none, true, false, nat_eq, map, ◌*◌,
}
use forastero.Queue
use forastero.Transaction.{Transaction, tx_eq}
use forastero.Channel
use forastero.Channel.{Channel, Config, Report, idle, mon_and_ref}
use forastero.Funnel
use forastero.Funnel.{Funnel, advance, push_at, new, push_reference}
use forastero.Funnel.Moves.{view}
use forastero.Funnel.Sources.{fields_of, select}
use forastero.Funnel.Streams.{Event, expect, capture, turn, step, run, start_of, consume}
use forastero.Funnel.Interleaved.{interleaved-right}
use forastero.Funnel.Complete.{Finished, interleaved-Finished}
use forastero.Funnel.Invariant.{Advances, advance-FunnelAdvances}

program : Unit {0}
unfolding advance push_at new Funnel.resume Funnel.start Funnel.acquire Funnel.round Funnel.conclude
    Funnel.pair_up Funnel.pop_last Funnel.sweep Funnel.any_pushed Funnel.add_queue Funnel.add_queues
    Funnel.has_queue Funnel.register_all Channel.settle Channel.new Queue.push
    Queue.wait_for_not_empty Queue.on_push_event Queue.level tx_eq Channel.push_monitor step run
    push_reference
program = tt

abbrev tx : ℕ → ℕ → Transaction ℕ
tx i v = record { ident = i; timestamp = 10 * i; f_event = none; c_event = none; fields = v }

abbrev strict : Config
strict = record {
  timeout_ns = none;
  drain_policy = mon_and_ref;
  match_window = 1;
  fail_fast = false;
}

abbrev two_queues : Funnel (Transaction ℕ)
two_queues = new ("a" ∷ "b" ∷ [])

abbrev captured : ℕ → Funnel (Transaction ℕ) → Funnel (Transaction ℕ)
captured v c = record c { base = Channel.push_monitor (tx 1 v) c.base }

abbrev expected : String → ℕ → Funnel (Transaction ℕ) → Funnel (Transaction ℕ)
expected name v c = record c { queues = push_at name (tx v v) c.queues }

-- The captured entry waits while a queue is empty, and is then found at the front of the second.
run_second :
    map
      (λ (r : Report (Transaction ℕ)). r.equal)
      (advance strict
        (expected "b" 7 (advance strict (expected "a" 8 (captured 7 two_queues))))).base.reports
    ≡ true ∷ []
unfolding program
run_second = refl

-- No front matches and no queue is empty: the last queue's front is reported.
run_mismatch :
    map
      (λ (r : Report (Transaction ℕ)). r.ref.ident)
      (advance strict (expected "b" 9 (expected "a" 8 (captured 7 two_queues)))).base.reports
    ≡ 9 ∷ []
unfolding program
run_mismatch = refl

-- The streams 5, 6 and 5, 7 come as 5, 7, 5, 6: the first entry is taken from the first queue.
run_equal_heads :
    map
      (λ (r : Report (Transaction ℕ)). r.equal)
      (advance strict (
        advance strict (
          captured 7 (
            captured 5 (
              expected "b" 7
                (expected "a" 6 (expected "b" 5 (expected "a" 5 two_queues)))))))).base.reports
    ≡ true ∷ false ∷ []
unfolding program
run_equal_heads = refl

advance-FunnelAdvances_example :
    Advances strict (view (captured 7 two_queues)) (advance strict (captured 7 two_queues))
unfolding program
advance-FunnelAdvances_example =
    advance-FunnelAdvances strict (captured 7 two_queues) (refl, λ h. cc)

-- Two streams, of the numbers below ten and of the others.
abbrev side : ℕ → String
side v = if ltb v 10 then "a" else "b"

abbrev stream : String → List (Transaction ℕ) → List (Transaction ℕ)
stream name [] = []
stream name (t ∷ ts) = if side t.fields =?= name then t ∷ stream name ts else stream name ts

stream-sorted :
    (ts : List (Transaction ℕ)) (name : String) → fields_of (stream name ts) ≡ select side name ts
stream-sorted [] name = refl
stream-sorted (t ∷ ts) name = elim (Bool-cases (side t.fields =?= name)) [
  | inl same ↦ rw same (ap (λ l. t.fields ∷ l) (stream-sorted ts name))
  | inr other ↦ rw other (stream-sorted ts name)
]

abbrev mixed : List (Transaction ℕ)
mixed = tx 1 7 ∷ tx 2 17 ∷ tx 3 18 ∷ tx 4 8 ∷ []

abbrev planned_of : String → List (Transaction ℕ)
planned_of name = stream name mixed

abbrev some_events : List Event
some_events = capture ∷ turn ∷ expect "b" ∷ turn ∷ expect "a" ∷ capture ∷ []

abbrev all_events : List Event
all_events = some_events ++ turn ∷ capture ∷ capture ∷ expect "b" ∷ turn ∷ turn ∷ expect "a" ∷ []

interleaved-right_example :
    let w = run strict some_events (start_of ("a" ∷ "b" ∷ []) planned_of mixed) in
    (w.channel.base.mismatched ≡ 0)
    × (w.channel.base.matched + length (w.channel.base.q_mon.entries ++ w.coming) ≡ 4)
unfolding program
interleaved-right_example =
    interleaved-right side strict "a" ("b" ∷ []) planned_of mixed some_events (stream-sorted mixed)
      (refl, (refl, (refl, (refl, tt))))

run_waiting :
    length
      (run strict all_events
        (start_of ("a" ∷ "b" ∷ []) planned_of mixed)).channel.base.q_mon.entries
    ≡ 1
unfolding program
run_waiting = refl

turned_round : (name key : String) → (name =?= key) ≡ false → (key =?= name) ≡ false
turned_round name key other = elim (Bool-cases (key =?= name)) [
  | inl same ↦
      let back : (name =?= key) ≡ true =
        (string_eq.beq_iff name key).1 (sym ((string_eq.beq_iff key name).0 same)) in
      cc
  | inr differ ↦ differ
]

consume_other :
    (name key : String) (planned : String → List (Transaction ℕ))
    → (name =?= key) ≡ false
    → consume key planned name ≡ planned name
consume_other name key planned other = rw other refl

abbrev left_of : String → List (Transaction ℕ)
left_of = consume "a" (consume "b" (consume "a" (consume "b" planned_of)))

all_pushed : (name : String) → left_of name ≡ []
all_pushed name = elim (Bool-cases (name =?= "a")) [
  | inl first ↦ subst (λ n. left_of n ≡ []) (sym ((string_eq.beq_iff name "a").0 first)) refl
  | inr not_first ↦ elim (Bool-cases (name =?= "b")) [
    | inl second ↦ subst (λ n. left_of n ≡ []) (sym ((string_eq.beq_iff name "b").0 second)) refl
    | inr not_second ↦
        consume_other name "a" (consume "b" (consume "a" (consume "b" planned_of))) not_first
        ∙ consume_other name "b" (consume "a" (consume "b" planned_of)) not_second
        ∙ consume_other name "a" (consume "b" planned_of) not_first
        ∙ consume_other name "b" planned_of not_second
        ∙ rw (turned_round name "a" not_first, turned_round name "b" not_second) refl
  ]
]

interleaved-Finished_example : Finished 4 (
    run strict
      (replicate 1 turn)
      (run strict all_events (start_of ("a" ∷ "b" ∷ []) planned_of mixed)))
unfolding program
interleaved-Finished_example =
    interleaved-Finished side strict "a" ("b" ∷ []) planned_of mixed all_events
      (stream-sorted mixed) (refl, (refl, (refl, (refl, tt)))) refl all_pushed

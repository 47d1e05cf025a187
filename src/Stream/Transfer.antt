-- ===== src/Stream/Transfer.antt =====
-- examples/common/io/stream: what the monitor sees of what the initiator drives.
use native.Mathlib.Nat.{mod-mod}
use forastero.Prelude.{
  ◌%◌, ◌^◌, ap₂, map, ℕ, zero, suc, ◌+◌, ◌≡◌, refl, sym, ap, ◌∙◌, List, [], ◌∷◌, ◌++◌, some, Bool,
  true, false, if◌then◌else◌, replicate, take, arith,
}
use forastero.Stream.{
  StreamTransaction, StreamBackpressure, StreamInitiator, monitor, begin, initiator_edge, edges_of,
  levels_of, get_word, set_word,
}

abbrev pub count_ready : List Bool → ℕ
count_ready [] = 0
count_ready (true ∷ levels) = suc (count_ready levels)
count_ready (false ∷ levels) = count_ready levels

-- The cycles for which backpressure leaves `ready` high.
abbrev pub ready_cycles : List StreamBackpressure → ℕ
ready_cycles [] = 0
ready_cycles (obj ∷ objs) = (if obj.ready then obj.cycles else 0) + ready_cycles objs

-- What a signal of a width holds of a transaction: its data modulo that power of two.
abbrev pub fit : ℕ → StreamTransaction → StreamTransaction
fit width t = record { data_word = t.data_word % 2 ^ width }

module _ (width : ℕ) where
  abbrev pub reset_initiator : StreamInitiator
  reset_initiator = record {
    queue = [];
    driving = false;
    valid = some false;
    word = some (record { width = width; level = 0 });
  }

  -- While the initiator drives a transaction.
  abbrev driving_at : StreamTransaction → List StreamTransaction → StreamInitiator
  driving_at t queue = record {
    queue = queue;
    driving = true;
    valid = some true;
    word = some (record { width = width; level = t.data_word % 2 ^ width });
  }

  -- With nothing to drive; the data of the last transaction is still there.
  abbrev idle_at : ℕ → StreamInitiator
  idle_at level = record {
    queue = [];
    driving = false;
    valid = some false;
    word = some (record { width = width; level = level });
  }

  idle_captures : (levels : List Bool) (level : ℕ) → monitor (edges_of levels (idle_at level)) ≡ []
  unfolding monitor edges_of initiator_edge
  idle_captures [] level = refl
  idle_captures (true ∷ levels) level = idle_captures levels level
  idle_captures (false ∷ levels) level = idle_captures levels level

abbrev captured : ℕ → List StreamTransaction → List StreamTransaction
captured data_word later = record { data_word = data_word } ∷ later

take-nil : (n : ℕ) → take {A = StreamTransaction} n [] ≡ []
take-nil zero = refl
take-nil (suc n) = refl

module _ (width : ℕ) where
  driving_captures :
      (levels : List Bool) (t : StreamTransaction) (queue : List StreamTransaction)
      → monitor (edges_of levels (driving_at width t queue))
        ≡ take (count_ready levels) (map (fit width) (t ∷ queue))
  unfolding monitor edges_of initiator_edge begin get_word set_word
  driving_captures [] t queue = refl
  driving_captures (true ∷ levels) t [] =
      ap₂ captured (mod-mod t.data_word (2 ^ width))
        (idle_captures width levels (t.data_word % 2 ^ width) ∙ sym (take-nil (count_ready levels)))
  driving_captures (true ∷ levels) t (u ∷ queue) =
      ap₂ captured (mod-mod t.data_word (2 ^ width)) (driving_captures levels u queue)
  driving_captures (false ∷ levels) t queue = driving_captures levels t queue

count_ready-append : (xs ys : List Bool) → count_ready (xs ++ ys) ≡ count_ready xs + count_ready ys
count_ready-append [] ys = omega arith
count_ready-append (true ∷ xs) ys = omega (arith, count_ready-append xs ys)
count_ready-append (false ∷ xs) ys = count_ready-append xs ys

count_ready-replicate :
    (n : ℕ) (ready : Bool) → count_ready (replicate n ready) ≡ (if ready then n else 0)
count_ready-replicate zero true = refl
count_ready-replicate zero false = refl
count_ready-replicate (suc n) true = omega (arith, count_ready-replicate n true)
count_ready-replicate (suc n) false = count_ready-replicate n false

count_ready-levels_of :
    (objs : List StreamBackpressure) → count_ready (levels_of objs) ≡ ready_cycles objs
unfolding levels_of
count_ready-levels_of [] = refl
count_ready-levels_of (obj ∷ objs) =
    rw
      (
        count_ready-append (replicate obj.cycles obj.ready) (levels_of objs),
        count_ready-replicate obj.cycles obj.ready,
        count_ready-levels_of objs,
      )
      refl

begin_captures :
    (width : ℕ) (levels : List Bool) (ts : List StreamTransaction)
    → monitor (edges_of levels (begin (reset_initiator width) ts))
      ≡ take (count_ready levels) (map (fit width) ts)
unfolding begin set_word
begin_captures width levels [] = idle_captures width levels 0 ∙ sym (take-nil (count_ready levels))
begin_captures width levels (t ∷ ts) = driving_captures width levels t ts

-- An initiator with some transactions queued, a responder with some backpressure and a monitor on one
-- interface with all its signals, the one of the data being a single part with its bits from 0 up, out
-- of reset: while the backpressure lasts, the monitor captures
-- exactly one transaction for each cycle in which ready is high, the queued ones in their order, each
-- once, until they are exhausted, with their data modulo 2 to the width of the signal of the data.
pub transfer :
    (width : ℕ) (ts : List StreamTransaction) (objs : List StreamBackpressure)
    → monitor (edges_of (levels_of objs) (begin (reset_initiator width) ts))
      ≡ take (ready_cycles objs) (map (fit width) ts)
transfer width ts objs =
    begin_captures width (levels_of objs) ts
    ∙ ap (λ n. take n (map (fit width) ts)) (count_ready-levels_of objs)

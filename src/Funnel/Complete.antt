-- ===== src/Funnel/Complete.antt =====
-- forastero/scoreboard.py, class FunnelChannel: once all streams are pushed and captured, a number of
-- turns of the loop leaves nothing.
use Prim.Native.String.{String}
use forastero.Prelude.{
  ℕ, ◌+◌, ◌≡◌, inl, inr, refl, List, [], ◌∷◌, ◌++◌, true, any, Eq, arith, Bool-cases, List-cases,
  length, replicate,
}
use forastero.Queue.{Queue}
use forastero.Transaction.{Transaction}
use forastero.Channel
use forastero.Channel.{Config}
use forastero.Funnel
use forastero.Funnel.{Funnel, push_reference, push_at, advance, reference_depth, total_level}
use forastero.Funnel.Moves.{contents, is_empty, head_matches}
use forastero.Funnel.Sources.{fields_of, select, Follows, Known, Follows-matches, Follows-found}
use forastero.Funnel.Live.{IsLive, Expected, advance-Turned, advance-IsLive, push_at-Live}
use forastero.Funnel.Streams.{
  World, Event, expect, capture, turn, start_of, capture_next, expect_next, step, run,
  push_reference_known, push_reference_unknown,
}
use forastero.Funnel.Interleaved.{Clean, step-Clean, start_of-Clean}

-- The state at the end: nothing waits.
pub record Finished {F : Type 0} (total : ℕ) (w : World F) : Type 0 where
  pub right : w.channel.base.mismatched ≡ 0
  pub all : w.channel.base.matched ≡ total
  pub none_waits : w.channel.base.q_mon.entries ≡ []
  pub none_expected : reference_depth w.channel ≡ 0

module _ {F : Type 0} ⦃e : Eq F⦄ (origin : F → String) (cfg : Config) (total : ℕ) where
  -- The streams are sound, and the loop stands where it can go on.
  abbrev GoesOn : World F → Type 0
  GoesOn w = Clean origin cfg total w × IsLive w.channel

  front_Expected :
      (mon : Transaction F) (rest : List (Transaction F)) (w : World F)
      → w.channel.base.q_mon.entries ≡ mon ∷ rest
      → Clean origin cfg total w
      → Expected mon w.channel.queues
  front_Expected mon rest w h c =
      let follows : Follows origin w.planned (mon ∷ rest ++ w.coming) (contents w.channel.queues) =
        (rw h at c.sound.follows) in
      let known : Known origin (mon ∷ rest ++ w.coming) (contents w.channel.queues) =
        (rw h at c.sound.known) in
      elim (Bool-cases (any is_empty (contents w.channel.queues))) [
        | inl gap ↦ inl gap
        | inr full ↦ inr (
            Follows-matches origin w.planned mon (rest ++ w.coming) (contents w.channel.queues)
              follows known.0 full)
      ]

  turn-IsLive : (w : World F) → GoesOn w → IsLive (advance cfg w.channel)
  turn-IsLive w (c, live) = elim (List-cases w.channel.base.q_mon.entries) [
    | inl none_left ↦ (advance-IsLive cfg w.channel c.ready live none_left).0
    | inr (mon, rest, h) ↦
        (advance-Turned cfg mon rest w.channel c.ready live h (front_Expected mon rest w h c)).0
  ]

  capture_next-IsLive :
      (ts : List (Transaction F)) (w : World F)
      → IsLive w.channel
      → IsLive (capture_next ts w).channel
  unfolding Channel.push_monitor
  capture_next-IsLive [] w live = live
  capture_next-IsLive (t ∷ later) w live = live

  expect_next-IsLive :
      (name : String) (ts : List (Transaction F)) (w : World F)
      → IsLive w.channel
      → IsLive (expect_next name ts w).channel
  expect_next-IsLive name [] w live = live
  expect_next-IsLive name (t ∷ later) w live =
      elim (Bool-cases (Funnel.has_queue name w.channel.queues)) [
        | inl known ↦
            simp (push_reference_known name t w.channel known, expect_next)
              (push_at-Live name t w.channel.base.stage w.channel.queues known live)
        | inr unknown ↦ simp (push_reference_unknown name t w.channel unknown, expect_next) live
      ]

  step-IsLive : (event : Event) (w : World F) → GoesOn w → IsLive (step cfg event w).channel
  unfolding step
  step-IsLive (expect name) w (c, live) = expect_next-IsLive name (w.planned name) w live
  step-IsLive capture w (c, live) = capture_next-IsLive w.coming w live
  step-IsLive turn w g = turn-IsLive w g

  step-GoesOn : (event : Event) (w : World F) → GoesOn w → GoesOn (step cfg event w)
  step-GoesOn event w g = (step-Clean origin cfg total event w g.0, step-IsLive event w g)

  pub run-GoesOn : (events : List Event) (w : World F) → GoesOn w → GoesOn (run cfg events w)
  unfolding run
  run-GoesOn [] w g = g
  run-GoesOn (event ∷ events) w g = run-GoesOn events (step cfg event w) (step-GoesOn event w g)

  nothing_left :
      (planned : String → List (Transaction F)) (queues : List (String × Queue (Transaction F)))
      → Follows origin planned [] (contents queues)
      → total_level queues ≡ 0
  unfolding total_level
  nothing_left planned [] f = refl
  nothing_left planned ((name, q) ∷ queues) (once, same, others) =
      rw (no_fields q.entries (planned name) same, nothing_left planned queues others) refl
    where
      no_fields : (es ts : List (Transaction F)) → fields_of es ++ fields_of ts ≡ [] → es ≡ []
      no_fields [] ts h = refl
      no_fields (x ∷ es) ts h = cc

  turns-Finished :
      (mons : List (Transaction F)) (w : World F)
      → w.channel.base.q_mon.entries ≡ mons
      → w.coming ≡ []
      → ((name : String) → w.planned name ≡ [])
      → GoesOn w
      → Finished total (run cfg (replicate (length mons) turn) w)
  unfolding run step reference_depth
  turns-Finished [] w h over pushed (c, live) =
      let none_left : w.channel.base.q_mon.entries ++ w.coming ≡ [] = rw (h, over) refl in
      record {
        right = c.sound.right;
        all =
            let counted : w.channel.base.matched + length {A = Transaction F} [] ≡ total =
              (rw none_left at c.sound.counted) in
            omega (arith, counted);
        none_waits = h;
        none_expected = nothing_left w.planned w.channel.queues (rw none_left at c.sound.follows);
      }
  turns-Finished (mon ∷ mons) w h over pushed (c, live) =
      let follows : Follows origin w.planned (mon ∷ mons ++ w.coming) (contents w.channel.queues) =
        (rw h at c.sound.follows) in
      let known : Known origin (mon ∷ mons ++ w.coming) (contents w.channel.queues) =
        (rw h at c.sound.known) in
      let matches : any (head_matches mon) (contents w.channel.queues) ≡ true =
        Follows-found origin w.planned mon (mons ++ w.coming) (contents w.channel.queues) follows
          known.0 (pushed (origin mon.fields)) in
      let (live', taken) = advance-Turned cfg mon mons w.channel c.ready live h (inr matches) in
      turns-Finished mons (step cfg turn w) (taken matches) over pushed
        (step-GoesOn turn w (c, live))

module _ {F : Type 0} ⦃e : Eq F⦄ (origin : F → String) (cfg : Config) where
  start_of-GoesOn :
      (name : String) (names : List String) (planned : String → List (Transaction F))
      (coming : List (Transaction F))
      → ((n : String) → fields_of (planned n) ≡ select origin n coming)
      → Known origin coming (contents (Funnel.new (name ∷ names)).queues)
      → GoesOn origin cfg (length coming) (start_of (name ∷ names) planned coming)
  unfolding Funnel.new Channel.new
  start_of-GoesOn name names planned coming sorted known =
      (start_of-Clean origin cfg name names planned coming sorted known, tt)

  -- Every transaction has an origin that is a function of its compared fields, so no two transactions
  -- of different origins compare equal. A funnel channel has a queue for the origin of every
  -- transaction that comes, and a model pushes the transactions of one origin, in the order in which
  -- they come, into that queue. Then, after any sequence of pushes, captures and turns of the loop in
  -- which every transaction was pushed and captured, as many further turns as entries wait in the
  -- monitor's queue leave no entry in any queue; as many matches are counted as transactions came,
  -- and no mismatch.
  pub interleaved-Finished :
      (name : String) (names : List String) (planned : String → List (Transaction F))
      (coming : List (Transaction F)) (events : List Event)
      → ((n : String) → fields_of (planned n) ≡ select origin n coming)
      → Known origin coming (contents (Funnel.new {T = Transaction F} (name ∷ names)).queues)
      → (run cfg events (start_of (name ∷ names) planned coming)).coming ≡ []
      → ((n : String) → (run cfg events (start_of (name ∷ names) planned coming)).planned n ≡ [])
      → let w = run cfg events (start_of (name ∷ names) planned coming) in
        Finished (length coming) (run cfg (replicate (length w.channel.base.q_mon.entries) turn) w)
  interleaved-Finished name names planned coming events sorted known over pushed =
      turns-Finished origin cfg (length coming) _ _ refl over pushed (
        run-GoesOn origin cfg (length coming) events _
          (start_of-GoesOn name names planned coming sorted known))

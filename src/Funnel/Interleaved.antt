-- ===== src/Funnel/Interleaved.antt =====
-- forastero/scoreboard.py, class FunnelChannel: what comes of several streams that the monitor captures
-- interleaved.
use Prim.Native.String.{String}
use forastero.Prelude.{
  ℕ, ◌+◌, ◌≡◌, ◌≢◌, inl, inr, refl, sym, ap, ◌∙◌, List, [], ◌∷◌, ◌++◌, ◌||◌, none, true, false, Eq,
  ◌=?=◌, string_eq, arith, Bool-cases, length, append_assoc,
}
use forastero.Transaction.{Transaction}
use forastero.Queue
use forastero.Queue.{Queue}
use forastero.Channel
use forastero.Channel.{Config}
use forastero.Funnel
use forastero.Funnel.{Funnel, push_reference, push_at, advance}
use forastero.Funnel.Moves.{view, contents}
use forastero.Funnel.Sources.{named, fields_of, select, Follows, Known}
use forastero.Funnel.Pushes.{funnel-capture, push_at-some, add_queue-some, add_queues-some}
use forastero.Funnel.Invariant.{IsReady, advance-FunnelAdvances}
use forastero.Funnel.Sound.{Sound, Known-queues, move-Sound}
use forastero.Funnel.Streams.{
  World, Event, expect, capture, turn, start_of, capture_next, expect_next, step, run,
  push_reference_known, push_reference_unknown, named-push_at, Follows-push_at,
}

module _ {F : Type 0} ⦃e : Eq F⦄ (origin : F → String) (cfg : Config) (total : ℕ) where
  pub record Clean (w : World F) : Type 0 where
    pub ready : IsReady w.channel
    pub sound : Sound origin w.planned w.coming total (view w.channel)

  pub capture_next-Clean :
      (ts : List (Transaction F)) (w : World F)
      → w.coming ≡ ts
      → Clean w
      → Clean (capture_next ts w)
  unfolding Channel.push_monitor Queue.push
  capture_next-Clean [] w same c = c
  capture_next-Clean (t ∷ later) w same c =
      let joined : (w.channel.base.q_mon.entries ++ t ∷ []) ++ later
          ≡ w.channel.base.q_mon.entries ++ w.coming =
        rw same (append_assoc w.channel.base.q_mon.entries (t ∷ []) later) in
      record {
        ready = (funnel-capture t w.channel.base.stage w.channel.base c.ready.0, c.ready.1);
        sound = record {
          follows = rw joined c.sound.follows;
          known = rw joined c.sound.known;
          right = c.sound.right;
          counted = rw joined c.sound.counted;
        };
      }

  pub expect_next-Clean :
      (name : String) (ts : List (Transaction F)) (w : World F)
      → w.planned name ≡ ts
      → Clean w
      → Clean (expect_next name ts w)
  expect_next-Clean name [] w same c = c
  expect_next-Clean name (t ∷ later) w same c =
      elim (Bool-cases (Funnel.has_queue name w.channel.queues)) [
        | inl known ↦
            simp (push_reference_known name t w.channel known, expect_next)
              (record {
                ready = (c.ready.0, push_at-some name t w.channel.queues c.ready.1);
                sound = record {
                  follows =
                      Follows-push_at origin name t later w.planned _ w.channel.queues same
                        c.sound.follows;
                  known =
                      Known-queues origin w.planned w.coming total _ _ _
                        (λ n. named-push_at n name t w.channel.queues) c.sound.known;
                  right = c.sound.right;
                  counted = c.sound.counted;
                };
              })
        | inr unknown ↦ simp (push_reference_unknown name t w.channel unknown, expect_next) c
      ]

  pub step-Clean : (event : Event) (w : World F) → Clean w → Clean (step cfg event w)
  unfolding step
  step-Clean (expect name) w c = expect_next-Clean name (w.planned name) w refl c
  step-Clean capture w c = capture_next-Clean w.coming w refl c
  step-Clean turn w c =
      let (move, ready) = advance-FunnelAdvances cfg w.channel c.ready in
      record { ready = ready; sound = move-Sound origin w.planned w.coming total _ _ move c.sound }

  pub run-Clean : (events : List Event) (w : World F) → Clean w → Clean (run cfg events w)
  unfolding run
  run-Clean [] w c = c
  run-Clean (event ∷ events) w c = run-Clean events (step cfg event w) (step-Clean event w c)

module _ {F : Type 0} (origin : F → String) (planned : String → List (Transaction F))
    (ts : List (Transaction F))
    (sorted : (name : String) → fields_of (planned name) ≡ select origin name ts) where
  named-last :
      (n name : String) (queues : List (String × List (Transaction F)))
      → named n queues ≡ false
      → name ≢ n
      → named n (queues ++ (name, []) ∷ []) ≡ false
  named-last n name [] none_here other = elim (Bool-cases (name =?= n)) [
    | inl same ↦ absurd (other ((string_eq.beq_iff _ _).0 same))
    | inr differ ↦ rw differ refl
  ]
  named-last n name ((key, es) ∷ queues) none_here other = elim (Bool-cases (key =?= n)) [
    | inl same ↦ let wrong : true ≡ false = (rw same at none_here) in cc
    | inr differ ↦ rw differ (named-last n name queues (rw differ at none_here) other)
  ]

  Follows-last :
      (name : String) (queues : List (String × List (Transaction F)))
      → named name queues ≡ false
      → Follows origin planned ts queues
      → Follows origin planned ts (queues ++ (name, []) ∷ [])
  Follows-last name [] none_here f = (refl, sorted name, tt)
  Follows-last name ((key, es) ∷ queues) none_here (once, same, others) =
      elim (Bool-cases (key =?= name)) [
        | inl here ↦ let wrong : true ≡ false = (rw here at none_here) in cc
        | inr other ↦ (
          named-last key name queues once (λ back.
              let here : (key =?= name) ≡ true = (string_eq.beq_iff _ _).1 (sym back) in cc),
          same,
          Follows-last name queues (rw other at none_here) others,
        )
      ]

  contents-last :
      (name : String) (q : Queue (Transaction F)) (queues : List (String × Queue (Transaction F)))
      → contents (queues ++ (name, q) ∷ []) ≡ contents queues ++ (name, q.entries) ∷ []
  contents-last name q [] = refl
  contents-last name q ((key, r) ∷ queues) =
      ap (λ l. (key, r.entries) ∷ l) (contents-last name q queues)

  named-contents :
      (name : String) (queues : List (String × Queue (Transaction F)))
      → named name (contents queues) ≡ Funnel.has_queue name queues
  unfolding Funnel.has_queue
  named-contents name [] = refl
  named-contents name ((key, q) ∷ queues) = ap (λ b. key =?= name || b) (named-contents name queues)

  Follows-add_queue :
      (name : String) (queues : List (String × Queue (Transaction F)))
      → Follows origin planned ts (contents queues)
      → Follows origin planned ts (contents (Funnel.add_queue name queues))
  unfolding Funnel.add_queue
  Follows-add_queue name queues f = elim (Bool-cases (Funnel.has_queue name queues)) [
    | inl known ↦ rw known f
    | inr unknown ↦
        rw (unknown, contents-last name (record { entries = []; on_push = none }) queues)
          (Follows-last name (contents queues) (named-contents name queues ∙ unknown) f)
  ]

  pub Follows-add_queues :
      (names : List String) (queues : List (String × Queue (Transaction F)))
      → Follows origin planned ts (contents queues)
      → Follows origin planned ts (contents (Funnel.add_queues names queues))
  unfolding Funnel.add_queues
  Follows-add_queues [] queues f = f
  Follows-add_queues (name ∷ names) queues f =
      Follows-add_queues names _ (Follows-add_queue name queues f)

module _ {F : Type 0} ⦃e : Eq F⦄ (origin : F → String) (cfg : Config) where
  pub start_of-Clean :
      (name : String) (names : List String) (planned : String → List (Transaction F))
      (coming : List (Transaction F))
      → ((n : String) → fields_of (planned n) ≡ select origin n coming)
      → Known origin coming (contents (Funnel.new (name ∷ names)).queues)
      → Clean origin cfg (length coming) (start_of (name ∷ names) planned coming)
  unfolding Funnel.new Channel.new Funnel.add_queues
  start_of-Clean name names planned coming sorted known = record {
    ready = (refl, add_queues-some names _ (add_queue-some name []));
    sound = record {
      follows = Follows-add_queues origin planned coming sorted (name ∷ names) [] tt;
      known = known;
      right = refl;
      counted = omega arith;
    };
  }

  -- Every transaction has an origin that is a function of its compared fields, so no two transactions
  -- of different origins compare equal. A funnel channel has a queue for the origin of every
  -- transaction that comes, and a model pushes the transactions of one origin, in the order in which
  -- they come, into that queue. Then, however the pushes, the captures and the turns of the loop
  -- follow each other, and however the origins are interleaved, no mismatch is counted, and every
  -- transaction was paired, waits in the monitor's queue, or is still to come.
  pub interleaved-right :
      (name : String) (names : List String) (planned : String → List (Transaction F))
      (coming : List (Transaction F)) (events : List Event)
      → ((n : String) → fields_of (planned n) ≡ select origin n coming)
      → Known origin coming (contents (Funnel.new {T = Transaction F} (name ∷ names)).queues)
      → let w = run cfg events (start_of (name ∷ names) planned coming) in
        (w.channel.base.mismatched ≡ 0)
        × (w.channel.base.matched + length (w.channel.base.q_mon.entries ++ w.coming)
            ≡ length coming)
  interleaved-right name names planned coming events sorted known =
      let c =
        run-Clean origin cfg (length coming) events _
          (start_of-Clean name names planned coming sorted known) in
      (c.sound.right, c.sound.counted)

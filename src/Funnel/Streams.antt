-- ===== src/Funnel/Streams.antt =====
-- forastero/scoreboard.py, class FunnelChannel, as a testbench uses it: the monitor captures several
-- streams, interleaved, and the model pushes every stream into the queue of its name, at any time.
use Prim.Native.String.{String}
use forastero.Prelude.{
  ◌≡◌, inl, inr, refl, ap, ◌∙◌, List, [], ◌∷◌, ◌++◌, none, some, true, false, if◌then◌else◌, Eq,
  ◌=?=◌, string_eq, Bool-cases, append_assoc,
}
use forastero.Transaction.{Transaction}
use forastero.Queue
use forastero.Queue.{Queue}
use forastero.Channel
use forastero.Channel.{Config}
use forastero.Funnel
use forastero.Funnel.{Funnel, push_reference, push_at, advance}
use forastero.Funnel.Moves.{contents}
use forastero.Funnel.Sources.{named, fields_of, fields_of-append, Follows}

-- What the testbench does next: it pushes the next transaction of a stream, the monitor captures
-- the next transaction, or the channel's loop runs.
pub data Event : Type 0 where
  expect : String → Event
  capture turn : Event

pub record World (F : Type 0) : Type 0 where
  pub channel : Funnel (Transaction F)
  pub planned : String → List (Transaction F)
  pub coming : List (Transaction F)

module _ {F : Type 0} where
  abbrev pub start_of :
      List String → (String → List (Transaction F)) → List (Transaction F) → World F
  start_of names planned coming = record {
    channel = Funnel.new names;
    planned = planned;
    coming = coming;
  }

  abbrev pub rest_of : List (Transaction F) → List (Transaction F)
  rest_of [] = []
  rest_of (t ∷ ts) = ts

  abbrev pub consume : String → (String → List (Transaction F)) → String → List (Transaction F)
  consume name planned n = if n =?= name then rest_of (planned n) else planned n

  pub pushed-planned :
      (es : List (Transaction F)) (t : Transaction F) (later ts : List (Transaction F))
      → ts ≡ t ∷ later
      → fields_of (es ++ t ∷ []) ++ fields_of (rest_of ts) ≡ fields_of es ++ fields_of ts
  pushed-planned es t later ts next =
      rw (next, fields_of-append es (t ∷ []))
        (append_assoc (fields_of es) (t.fields ∷ []) (fields_of later))

  pub push_reference_known :
      (name : String) (t : Transaction F) (c : Funnel (Transaction F))
      → Funnel.has_queue name c.queues ≡ true
      → push_reference name t c ≡ some (record c { queues = push_at name t c.queues })
  unfolding push_reference
  push_reference_known name t c h = rw h refl

  pub push_reference_unknown :
      (name : String) (t : Transaction F) (c : Funnel (Transaction F))
      → Funnel.has_queue name c.queues ≡ false
      → push_reference name t c ≡ none
  unfolding push_reference
  push_reference_unknown name t c h = rw h refl

  pub named-push_at :
      (n name : String) (t : Transaction F) (queues : List (String × Queue (Transaction F)))
      → named n (contents (push_at name t queues)) ≡ named n (contents queues)
  unfolding push_at
  named-push_at n name t [] = refl
  named-push_at n name t ((key, q) ∷ queues) = elim (Bool-cases (key =?= name)) [
    | inl same ↦ rw same refl
    | inr other ↦ rw (other, named-push_at n name t queues) refl
  ]

module _ {F : Type 0} ⦃e : Eq F⦄ where
  abbrev pub capture_next : List (Transaction F) → World F → World F
  capture_next [] w = w
  capture_next (t ∷ later) w = record w {
    channel = record (w.channel) { base = Channel.push_monitor t w.channel.base };
    coming = later;
  }

  abbrev pub expect_next : String → List (Transaction F) → World F → World F
  expect_next name [] w = w
  expect_next name (t ∷ later) w = elim (push_reference name t w.channel) [
    | none ↦ w
    | some channel ↦ record w { channel = channel; planned = consume name w.planned }
  ]

module _ {F : Type 0} ⦃e : Eq F⦄ (cfg : Config) where
  unfoldable pub step : Event → World F → World F
  step (expect name) w = expect_next name (w.planned name) w
  step capture w = capture_next w.coming w
  step turn w = record w { channel = advance cfg w.channel }

  unfoldable pub run : List Event → World F → World F
  run [] w = w
  run (event ∷ events) w = run events (step event w)

module _ {F : Type 0} (origin : F → String) where
  Follows-consume :
      (name : String) (planned : String → List (Transaction F)) (ts : List (Transaction F))
      (queues : List (String × List (Transaction F)))
      → named name queues ≡ false
      → Follows origin planned ts queues
      → Follows origin (consume name planned) ts queues
  Follows-consume name planned ts [] none_here f = f
  Follows-consume name planned ts ((key, es) ∷ queues) none_here (once, same, others) =
      elim (Bool-cases (key =?= name)) [
        | inl here ↦ let wrong : true ≡ false = (rw here at none_here) in cc
        | inr other ↦ (
          once,
          rw other same,
          Follows-consume name planned ts queues (rw other at none_here) others,
        )
      ]

  pub Follows-push_at :
      (name : String) (t : Transaction F) (later : List (Transaction F))
      (planned : String → List (Transaction F)) (ts : List (Transaction F))
      (queues : List (String × Queue (Transaction F)))
      → planned name ≡ t ∷ later
      → Follows origin planned ts (contents queues)
      → Follows origin (consume name planned) ts (contents (push_at name t queues))
  unfolding push_at Queue.push
  Follows-push_at name t later planned ts [] next f = f
  Follows-push_at name t later planned ts ((key, q) ∷ queues) next (once, same, others) =
      elim (Bool-cases (key =?= name)) [
        | inl here ↦
            let own : key ≡ name = (string_eq.beq_iff _ _).0 here in
            simp here (
              once,
              pushed-planned q.entries t later (planned key) (ap planned own ∙ next) ∙ same,
              Follows-consume name planned ts (contents queues) (rw own at once) others,
            )
        | inr other ↦ simp other (
          named-push_at key name t queues ∙ once,
          same,
          Follows-push_at name t later planned ts queues next others,
        )
      ]

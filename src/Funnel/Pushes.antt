-- ===== src/Funnel/Pushes.antt =====
-- forastero/scoreboard.py, class FunnelChannel: what its pushes and its constructor keep.
use Prim.Native.String.{String}
use forastero.Prelude.{◌≢◌, refl, inl, inr, List, [], ◌∷◌, ◌++◌, Bool-cases, Eq, ◌=?=◌, string_eq}
use forastero.Queue
use forastero.Queue.{Queue}
use forastero.Transaction.{Transaction}
use forastero.Channel
use forastero.Channel.{
  Channel, Stage, idle, at_monitor, at_lock, at_reference, at_push, at_pop, failed,
}
use forastero.Channel.History.{push-Awaits}
use forastero.Funnel
use forastero.Funnel.{push_at}
use forastero.Funnel.Moves.{contents}
use forastero.Funnel.Invariant.{Ready}

module _ {F : Type 0} ⦃e : Eq F⦄ where
  pub funnel-capture :
      (t : Transaction F) (s : Stage (Transaction F)) (c : Channel (Transaction F))
      → Ready s c
      → Ready s (Channel.push_monitor t c)
  unfolding Channel.push_monitor Queue.push
  funnel-capture t idle c h = h
  funnel-capture t at_monitor c (free, waits) = (free, push-Awaits t c.q_mon waits)
  funnel-capture t at_lock c h = h
  funnel-capture t at_reference c h = h
  funnel-capture t (at_push mon) c (held, (xs, front)) = (held, (xs ++ t ∷ [], rw front refl))
  funnel-capture t (at_pop _) c h = h
  funnel-capture t (failed _) c h = h

module _ {F : Type 0} where
  pub push_at-some :
      (name : String) (t : Transaction F) (queues : List (String × Queue (Transaction F)))
      → contents queues ≢ []
      → contents (push_at name t queues) ≢ []
  unfolding push_at
  push_at-some name t [] h = h
  push_at-some name t ((key, q) ∷ queues) h = elim (Bool-cases (key =?= name)) [
    | inl same ↦ simp same (λ p. cc)
    | inr other ↦ simp other (λ p. cc)
  ]

  contents-append-some :
      (queues : List (String × Queue (Transaction F))) (entry : String × Queue (Transaction F))
      → contents (queues ++ entry ∷ []) ≢ []
  contents-append-some [] entry h = cc
  contents-append-some (x ∷ queues) entry h = cc

  pub add_queue-some :
      (name : String) (queues : List (String × Queue (Transaction F)))
      → contents (Funnel.add_queue name queues) ≢ []
  unfolding Funnel.add_queue Funnel.has_queue
  add_queue-some name [] = λ h. cc
  add_queue-some name (x ∷ queues) = elim (Bool-cases (Funnel.has_queue name (x ∷ queues))) [
    | inl known ↦ rw known (λ h. cc)
    | inr unknown ↦ rw unknown (contents-append-some (x ∷ queues) _)
  ]

  pub add_queues-some :
      (names : List String) (queues : List (String × Queue (Transaction F)))
      → contents queues ≢ []
      → contents (Funnel.add_queues names queues) ≢ []
  unfolding Funnel.add_queues
  add_queues-some [] queues h = h
  add_queues-some (name ∷ names) queues h = add_queues-some names _ (add_queue-some name queues)

-- ===== src/Channel/History.antt =====
-- forastero/scoreboard.py, class Channel, over any interleaving of captures, expectations and
-- turns of the loop.
use mathlib.Core.List.{Perm}
use mathlib.Core.List.Perm
use forastero.Prelude.{
  ℕ, zero, suc, ◌≡◌, refl, List, [], ◌∷◌, ◌++◌, some, Bool, inl, inr, get_elem?, erase_idx, arith,
  Eq,
}
use forastero.Queue
use forastero.Queue.{Queue}
use forastero.Transaction.{Transaction}
use forastero.Channel.{
  Channel, Config, Stage, idle, at_monitor, at_lock, at_reference, at_push, at_pop, failed, advance,
  push_monitor, push_reference,
}
use forastero.Channel.Pairing.{Awaits, Ready}

-- What can happen next to a channel: a capture, an expectation, or a turn of the loop.
pub data Action (T : Type 0) : Type 0 where
  capture expect : T → Action T
  turn : Action T

abbrev pub captures : {T : Type 0} → List (Action T) → List T
captures [] = []
captures (capture t ∷ more) = t ∷ captures more
captures (expect t ∷ more) = captures more
captures (turn ∷ more) = captures more

abbrev pub expects : {T : Type 0} → List (Action T) → List T
expects [] = []
expects (capture t ∷ more) = expects more
expects (expect t ∷ more) = t ∷ expects more
expects (turn ∷ more) = expects more

pub perm_erase {ℓ} :
    {A : Type ℓ} (xs : List A) (i : ℕ) {x : A}
    → get_elem? xs i ≡ some x
    → Perm (x ∷ erase_idx xs i) xs
perm_erase [] i h = ground arith
perm_erase (y ∷ xs) zero {x} h = let e : x ≡ y = ground arith in rw e Perm.rfl
perm_erase (y ∷ xs) (suc i) {x} h = Perm.trans (Perm.swap y x _) (Perm.cons y (perm_erase xs i h))

module _ {F : Type 0} ⦃e : Eq F⦄ (cfg : Config) where
  unfoldable pub step : Action (Transaction F) → Channel (Transaction F) → Channel (Transaction F)
  step (capture t) c = push_monitor t c
  step (expect t) c = push_reference t c
  step turn c = advance cfg c

  unfoldable pub run :
      List (Action (Transaction F)) → Channel (Transaction F) → Channel (Transaction F)
  unfolding step
  run [] c = c
  run (a ∷ more) c = run more (step a c)

module _ {A : Type 0} (x : A) (q : Queue A) where
  pub push-Awaits : Awaits q → Awaits (Queue.push x q).0
  unfolding Queue.push
  push-Awaits (inl (evt, waits, e)) = inr (x, [], refl, rw e refl)
  push-Awaits (inr (y, ys, pushed, h)) = inr (y, ys ++ x ∷ [], refl, rw h refl)

module _ {F : Type 0} ⦃e : Eq F⦄ (window : ℕ) (t : Transaction F) where
  pub push_monitor-Ready :
      (s : Stage (Transaction F)) (m r : Queue (Transaction F)) (l : Bool)
      → Ready window s m r l
      → Ready window s (Queue.push t m).0 r l
  unfolding Queue.push
  push_monitor-Ready idle m r l h = h
  push_monitor-Ready at_monitor m r l (free, waits) = (free, push-Awaits t m waits)
  push_monitor-Ready at_lock m r l h = h
  push_monitor-Ready at_reference m r l (one, held, (x, xs, front), waits) =
      (one, held, (x, xs ++ t ∷ [], rw front refl), waits)
  push_monitor-Ready (at_push mon) m r l (several, held, (xs, front), waits) =
      (several, held, (xs ++ t ∷ [], rw front refl), waits)
  push_monitor-Ready (at_pop _) m r l h = h
  push_monitor-Ready (failed _) m r l h = h

  pub push_reference-Ready :
      (s : Stage (Transaction F)) (m r : Queue (Transaction F)) (l : Bool)
      → Ready window s m r l
      → Ready window s m (Queue.push t r).0 l
  unfolding Queue.push
  push_reference-Ready idle m r l h = h
  push_reference-Ready at_monitor m r l h = h
  push_reference-Ready at_lock m r l h = h
  push_reference-Ready at_reference m r l (one, held, front, waits) =
      (one, held, front, push-Awaits t r waits)
  push_reference-Ready (at_push mon) m r l (several, held, front, waits) =
      (several, held, front, inr refl)
  push_reference-Ready (at_pop _) m r l h = h
  push_reference-Ready (failed _) m r l h = h

-- ===== src/Arbiter/Examples.antt =====
-- Two sequences that ask for overlapping locks.
use forastero.Prelude.{◌≡◌, inl, refl, List, [], ◌∷◌, true, arith}
use forastero.SeqLock
use forastero.SeqLock.{SeqLock, LockId, free_lock, owned}
use forastero.Arbiter
use forastero.Arbiter.{
  Store, Entry, Arbiter, update, pass, available, round, manage, running, claim, all_in, at_queue,
}
use forastero.Arbiter.Claims.{distinct}
use forastero.Arbiter.Granted.{IsPass}
use forastero.Arbiter.Passes.{pass-IsPass}
use forastero.Arbiter.Rounds.{IsSound, IsTurn, manage-IsTurn}
use forastero.Arbiter.Progress.{round_running}

abbrev first : Entry
first = record { ctx = 10; locks = 0 ∷ 1 ∷ []; evt = 100 }

abbrev second : Entry
second = record { ctx = 20; locks = 1 ∷ 2 ∷ []; evt = 101 }

abbrev all_free : Store
all_free l = free_lock

abbrev waiting : Arbiter
waiting = record {
  queue = first ∷ second ∷ [];
  evt_queue = true;
  stage = at_queue;
  store = all_free;
}

abbrev known : List LockId
known = 0 ∷ 1 ∷ 2 ∷ []

program : Unit {0}
unfolding distinct available all_in manage Arbiter.wake round Arbiter.schedule pass
    Arbiter.after_claim claim Arbiter.remove update SeqLock.acquire Arbiter.conclude Arbiter.prune
program = tt

waiting-IsSound : IsSound true known (1 ∷ 0 ∷ []) [] waiting
unfolding program
waiting-IsSound = record {
  places = (omega arith, (omega arith, tt));
  once = (refl, (refl, tt));
  agree = λ j. inl (refl, refl);
}

-- Tried last, the first entry finds lock 1 taken, and stays in the queue.
one_left : (manage true known (1 ∷ 0 ∷ []) [] waiting).queue ≡ first ∷ []
unfolding program
one_left = refl

pass-IsPass_example :
    IsPass
      (first ∷ second ∷ [])
      (1 ∷ 0 ∷ [])
      known
      all_free
      []
      (pass true (first ∷ second ∷ []) (1 ∷ 0 ∷ []) known all_free [])
unfolding program
pass-IsPass_example =
    pass-IsPass true (first ∷ second ∷ []) (refl, (refl, tt)) (1 ∷ 0 ∷ []) known all_free []
      (omega arith, (omega arith, tt)) (λ j h. refl)

manage-IsTurn_example : IsTurn waiting (manage true known (1 ∷ 0 ∷ []) [] waiting)
manage-IsTurn_example = manage-IsTurn true known (1 ∷ 0 ∷ []) [] waiting (λ h. cc) waiting-IsSound

round_running_example : (round true known (1 ∷ 0 ∷ []) [] waiting).stage ≡ running
unfolding program
round_running_example =
    round_running true known (1 ∷ 0 ∷ []) [] 0 first refl waiting waiting-IsSound refl (omega arith)
      refl

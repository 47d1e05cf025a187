-- ===== src/SeqLock/Examples.antt =====
-- Locks and tables at concrete inputs.
use forastero.Prelude.{ℕ, ◌≡◌, ◌↔◌, refl, [], ◌∷◌}
use forastero.SeqLock.{Registry, find, get_named_lock, get_component_lock}
use forastero.SeqLock.Requests.{component, named, ask_all, ask_all-same_iff, no_locks}

program : Unit {0}
unfolding find get_named_lock get_component_lock
program = tt

-- Component 9 has lock 0, and a lock named "bus" is lock 1.
abbrev two_locks : Registry
two_locks = record { component_locks = (9, 0) ∷ []; named_locks = ("bus", 1) ∷ []; next_lock = 2 }

-- The lock of a known name is found again, and that of a new name is a new lock.
again : (get_named_lock "bus" two_locks).1 ≡ 1
unfolding program
again = refl

another : (get_named_lock "irq" two_locks).1 ≡ 2
unfolding program
another = refl

run_requests : ask_all (component 9 ∷ named "bus" ∷ component 9 ∷ []) no_locks ≡ 0 ∷ 1 ∷ 0 ∷ []
unfolding program
run_requests = refl

ask_all-same_iff_example : (◌≡◌ {A = ℕ} 0 1) ↔ (component 9 ≡ named "bus")
unfolding program
ask_all-same_iff_example =
    ask_all-same_iff (component 9 ∷ named "bus" ∷ component 9 ∷ []) 2 1 (component 9) (named "bus")
      0 1 refl refl refl refl

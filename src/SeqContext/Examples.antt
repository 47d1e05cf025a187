-- ===== src/SeqContext/Examples.antt =====
-- A context that holds one of the two locks of its block.
use forastero.Prelude.{◌≡◌, zero, suc, inl, inr, refl, [], ◌∷◌, true}
use forastero.SeqLock.{free_lock, owned}
use forastero.Arbiter.{Store}
use forastero.Arbiter.Rounds.{AreConsistent}
use forastero.SeqContext.{leave}
use forastero.SeqContext.Ids.{invoke_all, numbered, invoke_all-numbered}
use forastero.SeqContext.Laws.{IsLeft, leave-IsLeft}

-- Lock 0 is held by context 7, lock 1 by context 8.
abbrev held : Store
held zero = owned 7
held (suc zero) = owned 8
held _ = free_lock

held-AreConsistent : AreConsistent held
held-AreConsistent zero = inr (7, refl, refl)
held-AreConsistent (suc zero) = inr (8, refl, refl)
held-AreConsistent (suc (suc j)) = inl (refl, refl)

leave-IsLeft_example : IsLeft true 7 (0 ∷ 1 ∷ []) held (leave true 7 (0 ∷ 1 ∷ []) held)
leave-IsLeft_example = leave-IsLeft true 7 (0 ∷ 1 ∷ []) held held-AreConsistent

invoke_all-numbered_example :
    invoke_all ("a" ∷ "b" ∷ "a" ∷ []) [] ≡ numbered [] ("a" ∷ "b" ∷ "a" ∷ [])
invoke_all-numbered_example = invoke_all-numbered ("a" ∷ "b" ∷ "a" ∷ [])

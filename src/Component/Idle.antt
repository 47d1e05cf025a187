-- ===== src/Component/Idle.antt =====
-- forastero/component.py, Component.idle: when the loop ends.
use forastero.Prelude.{
  ℕ, zero, suc, ◌+◌, ◌≤◌, ◌<◌, ◌≡◌, ap, ◌∙◌, some, Bool, true, false, arith, Bool-cases, inl, inr,
  subst,
}
use forastero.Component.{idle}

moved : (busy_at : ℕ → Bool) (v : Bool) (a b : ℕ) → a ≡ b → busy_at a ≡ v → busy_at b ≡ v
moved busy_at v a b e h = subst (λ n. busy_at n ≡ v) e h

earlier :
    (busy_at : ℕ → Bool) (edge d : ℕ)
    → busy_at edge ≡ true
    → ((j : ℕ) → j < d → busy_at ((edge + 1) + j) ≡ true)
    → (j : ℕ) → j < suc d
    → busy_at (edge + j) ≡ true
earlier busy_at edge d here later zero h = moved busy_at true edge (edge + 0) (omega arith) here
earlier busy_at edge d here later (suc j) h =
    moved busy_at true ((edge + 1) + j) (edge + suc j) (omega arith) (later j (omega arith))

-- A component that is not busy behind some edge is waited for without fail: `idle` returns, with
-- fuel for the edges up to there, at the first edge behind which the component is not busy.
pub idle_first :
    (busy_at : ℕ → Bool) (edge k : ℕ)
    → busy_at (edge + k) ≡ false
    → (d : ℕ) × (d ≤ k)
      × (idle (suc k) busy_at edge ≡ some (edge + d))
      × (busy_at (edge + d) ≡ false)
      × ((j : ℕ) → j < d → busy_at (edge + j) ≡ true)
unfolding idle
idle_first busy_at edge zero free =
    let here = moved busy_at false (edge + 0) edge (omega arith) free in
    (0, omega arith, rw here (ap some (omega arith)), free, λ j h. absurd (omega arith))
idle_first busy_at edge (suc k) free = elim (Bool-cases (busy_at edge)) [
  | inl taken ↦
      let (d, le, ends, at_end, before) =
        idle_first busy_at (edge + 1) k
          (moved busy_at false (edge + suc k) ((edge + 1) + k) (omega arith) free) in
      (
        suc d,
        omega arith,
        rw taken (ends ∙ ap some (omega arith)),
        moved busy_at false ((edge + 1) + d) (edge + suc d) (omega arith) at_end,
        earlier busy_at edge d taken before,
      )
  | inr not_taken ↦ (
    0,
    omega arith,
    rw not_taken (ap some (omega arith)),
    moved busy_at false edge (edge + 0) (omega arith) not_taken,
    λ j h. absurd (omega arith),
  )
]

-- ===== src/Component/Examples.antt =====
-- A component that is busy for three edges.
use forastero.Prelude.{ℕ, ◌+◌, ◌≤◌, ◌<◌, ◌≡◌, refl, none, some, Bool, true, false, ltb, text, []}
use forastero.Component
use forastero.Component.{Component, draw, new, seed_from, lock, release, busy, idle}
use forastero.Component.Idle.{idle_first}

program : Unit {0}
unfolding new seed_from lock release busy idle Component.first_seed Component.name_or
program = tt

abbrev three : ℕ → Bool
three edge = ltb edge 3

run_idle : idle 10 three 0 ≡ some 3
unfolding program
run_idle = refl

run_name : (new none (some []) (text "StreamMonitor") true).name ≡ text "StreamMonitor"
unfolding program
run_name = refl

run_seed : (seed_from 4 (new none none (text "StreamMonitor") true)).seed ≡ draw 4
unfolding program
run_seed = refl

run_release : release (new none none (text "StreamMonitor") true) ≡ none
unfolding program
run_release = refl

idle_first_example :
    (d : ℕ) × (d ≤ 3)
    × (idle 4 three 0 ≡ some (0 + d))
    × (three (0 + d) ≡ false)
    × ((j : ℕ) → j < d → three (0 + j) ≡ true)
idle_first_example = idle_first three 0 3 refl

-- ===== src/Event/Examples.antt =====
-- A monitor with two listeners.
use forastero.Prelude.{ℕ, ◌≡◌, ◌≢◌, refl, [], ◌∷◌, ◌++◌, map, nat_eq}
use forastero.Event.{star, on, EventEmitter, at, get_wait_event, publish, subscribe, subscribe_all}
use forastero.Event.Delivery.{publish_wakes, publish_calls}

-- Handler 1 listens to all events, and handler 2 to event 5; wait 30 is for event 5.
abbrev listened : EventEmitter ℕ ℕ
listened = record { handlers = (on 5, 2) ∷ (star, 1) ∷ []; waiting = (on 6, 31) ∷ (on 5, 30) ∷ [] }

publish_wakes_example :
    ((publish {O = ℕ} (λ n. n) 5 77 (get_wait_event 5 40 listened)).1.woken
      ≡ record { evt = 30; payload = 77 } ∷ record { evt = 40; payload = 77 } ∷ [])
    × ((publish {O = ℕ}
          (λ n. n)
          5
          78
          (publish {O = ℕ} (λ n. n) 5 77 (get_wait_event 5 40 listened)).0).1.woken
        ≡ [])
    × ((b : ℕ)
        → 5 ≢ b
        → at (on b) (publish {O = ℕ} (λ n. n) 5 77 (get_wait_event 5 40 listened)).0.waiting
          ≡ at (on b) listened.waiting)
unfolding at
publish_wakes_example = publish_wakes (λ n. n) 5 40 77 78 listened (λ n. refl)

publish_calls_example :
    ((publish {O = ℕ}
        (λ n. n)
        5
        77
        (record listened { handlers = listened.handlers ++ (on 5, 3) ∷ [] })).1.called
      ≡ (publish {O = ℕ} (λ n. n) 5 77 listened).1.called ++ (3, 5, 77) ∷ [])
    × ((publish {O = ℕ}
          (λ n. n)
          6
          77
          (record listened { handlers = listened.handlers ++ (on 5, 3) ∷ [] })).1.called
        ≡ (publish {O = ℕ} (λ n. n) 6 77 listened).1.called)
    × ((publish {O = ℕ} (λ n. n) 5 77 (subscribe_all 3 listened)).1.called
        ≡ map (λ k. (k, 5, 77)) (at star listened.handlers)
          ++ (3, 5, 77) ∷ map (λ k. (k, 5, 77)) (at (on 5) listened.handlers))
unfolding subscribe
publish_calls_example = publish_calls (λ n. n) 5 6 3 77 listened _ (λ h. cc) refl

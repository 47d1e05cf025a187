-- ===== src/Queue/Access.antt =====
-- forastero/queue.py: what `pop` and `wait_for_not_empty` do on a queue with entries and on an
-- empty one.
use forastero.Prelude.{
  ℕ, ◌<◌, ◌≡◌, refl, List, [], ◌∷◌, some, get_elem?, erase_idx, length, arith, ◌==◌, false,
}
use forastero.Queue
use forastero.Queue.{Queue, EventId, Outcome, done, raised, waiting, index_error}

module _ {A : Type 0} where
  pub pop_entry_found :
      (index : ℕ) (q : Queue A) (x : A)
      → get_elem? q.entries index ≡ some x
      → Queue.pop_entry index q ≡ done (record q { entries = erase_idx q.entries index }) x
  unfolding Queue.pop_entry
  pop_entry_found index q x there = rw (there, Queue.pop_entry)

  length_of_found :
      (index : ℕ) (xs : List A) {x : A} → get_elem? xs index ≡ some x → (length xs == 0) ≡ false
  length_of_found index [] h = ground arith
  length_of_found index (x ∷ xs) h = ground arith

  pub pop_found :
      (fresh : EventId) (index : ℕ) (q : Queue A) (x : A)
      → get_elem? q.entries index ≡ some x
      → Queue.pop fresh index q ≡ done (record q { entries = erase_idx q.entries index }) x
  unfolding Queue.pop
  pop_found fresh index q x there =
      rw (length_of_found index q.entries there, Queue.pop) (pop_entry_found index q x there)

  pub pop_empty :
      (fresh : EventId) (index : ℕ) (q : Queue A)
      → q.entries ≡ []
      → Queue.pop fresh index q
        ≡ waiting (Queue.on_push_event fresh q).0 (Queue.on_push_event fresh q).1
  unfolding Queue.pop
  pop_empty fresh index q h = ground arith

  -- Waiting on the next push leaves the entries alone and returns the event that push will set.
  pub on_push_event_registers :
      (fresh : EventId) (q : Queue A)
      → ((Queue.on_push_event fresh q).0.entries ≡ q.entries)
        × ((Queue.on_push_event fresh q).0.on_push ≡ some (Queue.on_push_event fresh q).1)
  unfolding Queue.on_push_event
  on_push_event_registers fresh q = ground arith

  pub get_elem?-front : (xs : List A) → 0 < length xs → (x : A) × (get_elem? xs 0 ≡ some x)
  get_elem?-front [] h = elim h [ ]
  get_elem?-front (x ∷ xs) h = (x, refl)

  pub wait_for_not_empty_empty :
      (fresh : EventId) (q : Queue A)
      → q.entries ≡ []
      → Queue.wait_for_not_empty fresh q
        ≡ waiting (Queue.on_push_event fresh q).0 (Queue.on_push_event fresh q).1
  unfolding Queue.wait_for_not_empty
  wait_for_not_empty_empty fresh q h = ground arith

  pub wait_for_not_empty_found :
      (fresh : EventId) (q : Queue A) {x : A} {xs : List A}
      → q.entries ≡ x ∷ xs
      → Queue.wait_for_not_empty fresh q ≡ done q tt
  unfolding Queue.wait_for_not_empty
  wait_for_not_empty_found fresh q h = ground arith

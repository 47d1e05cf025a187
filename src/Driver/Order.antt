-- ===== src/Driver/Order.antt =====
-- forastero/driver.py: the order in which a driver's loop takes up, begins and ends its
-- transactions, over any interleaving of calls and turns.
use forastero.Prelude.{
  ℕ, ◌≡◌, refl, sym, ap, ◌∙◌, List, [], ◌∷◌, ◌++◌, append-nil, append_assoc, Option, none, some,
}
use forastero.Transaction.{Transaction, DriverEvent, enqueue, pre_drive, post_drive}
use forastero.Driver.{
  Item, transaction, iterable, Yielded, yields, unsuitable, Fetch, got, exhausted, refused, fetch,
  fetch_front, with_event,
}

module _ {F : Type 0} where
  abbrev pub fields_of : List (Yielded F) → List F
  fields_of [] = []
  fields_of (yields t ∷ items) = t.fields ∷ fields_of items
  fields_of (unsuitable ∷ items) = fields_of items

  abbrev pub item_fields : Item F → List F
  item_fields (transaction t) = t.fields ∷ []
  item_fields (iterable items wait_for) = fields_of items

  -- What the entries of the queue still have to give.
  abbrev pub pending : List (Item F) → List F
  pending [] = []
  pending (item ∷ entries) = item_fields item ++ pending entries

  -- What is published is enqueued, begun or ended.
  abbrev pub enqueued_in : DriverEvent × Item F → List F
  enqueued_in (enqueue, item) = item_fields item
  enqueued_in (pre_drive, item) = []
  enqueued_in (post_drive, item) = []

  abbrev pub begun_in : DriverEvent × Item F → List F
  begun_in (enqueue, item) = []
  begun_in (pre_drive, item) = item_fields item
  begun_in (post_drive, item) = []

  abbrev pub ended_in : DriverEvent × Item F → List F
  ended_in (enqueue, item) = []
  ended_in (pre_drive, item) = []
  ended_in (post_drive, item) = item_fields item

  abbrev pub all_in : (DriverEvent × Item F → List F) → List (DriverEvent × Item F) → List F
  all_in f [] = []
  all_in f (x ∷ xs) = f x ++ all_in f xs

  pub all_in-last :
      (f : DriverEvent × Item F → List F) (xs : List (DriverEvent × Item F))
      (x : DriverEvent × Item F)
      → all_in f (xs ++ x ∷ []) ≡ all_in f xs ++ f x
  all_in-last f [] x = append-nil _
  all_in-last f (y ∷ xs) x =
      ap (λ l. f y ++ l) (all_in-last f xs x) ∙ sym (append_assoc (f y) (all_in f xs) (f x))

  pub pending-last :
      (entries : List (Item F)) (item : Item F)
      → pending (entries ++ item ∷ []) ≡ pending entries ++ item_fields item
  pending-last [] item = append-nil _
  pending-last (x ∷ entries) item =
      ap (λ l. item_fields x ++ l) (pending-last entries item)
      ∙ sym (append_assoc (item_fields x) (pending entries) (item_fields item))

  -- What the three lists become behind one more publication.
  pub told_begun :
      (ps : List (DriverEvent × Item F)) (t : Transaction F)
      → let ps' = ps ++ (pre_drive, transaction t) ∷ [] in
        (all_in begun_in ps' ≡ all_in begun_in ps ++ t.fields ∷ [])
        × (all_in enqueued_in ps' ≡ all_in enqueued_in ps)
        × (all_in ended_in ps' ≡ all_in ended_in ps)
  told_begun ps t = (
    all_in-last begun_in ps _,
    all_in-last enqueued_in ps _ ∙ append-nil _,
    all_in-last ended_in ps _ ∙ append-nil _,
  )

  pub told_ended :
      (ps : List (DriverEvent × Item F)) (t : Transaction F)
      → let ps' = ps ++ (post_drive, transaction t) ∷ [] in
        (all_in begun_in ps' ≡ all_in begun_in ps)
        × (all_in enqueued_in ps' ≡ all_in enqueued_in ps)
        × (all_in ended_in ps' ≡ all_in ended_in ps ++ t.fields ∷ [])
  told_ended ps t = (
    all_in-last begun_in ps _ ∙ append-nil _,
    all_in-last enqueued_in ps _ ∙ append-nil _,
    all_in-last ended_in ps _,
  )

  pub told_enqueued :
      (ps : List (DriverEvent × Item F)) (item : Item F)
      → let ps' = ps ++ (enqueue, item) ∷ [] in
        (all_in begun_in ps' ≡ all_in begun_in ps)
        × (all_in enqueued_in ps' ≡ all_in enqueued_in ps ++ item_fields item)
        × (all_in ended_in ps' ≡ all_in ended_in ps)
  told_enqueued ps item = (
    all_in-last begun_in ps _ ∙ append-nil _,
    all_in-last enqueued_in ps _,
    all_in-last ended_in ps _ ∙ append-nil _,
  )

  -- What was fetched comes from the front, and the rest stays.
  abbrev pub FetchKeeps : List (Item F) → Fetch F → Type 0
  FetchKeeps entries (got t rest) = pending entries ≡ t.fields ∷ pending rest
  FetchKeeps entries exhausted = pending entries ≡ []
  FetchKeeps entries (refused rest) = pending entries ≡ pending rest

  pub with_event-fields :
      (wait_for : Option DriverEvent) (evt : ℕ) (t : Transaction F)
      → (with_event wait_for evt t).fields ≡ t.fields
  unfolding with_event
  with_event-fields none evt t = refl
  with_event-fields (some w) evt t = refl

  pub fetch-FetchKeeps :
      (evt : ℕ) (entries : List (Item F)) → FetchKeeps entries (fetch evt entries)
  unfolding fetch fetch_front
  fetch-FetchKeeps evt [] = refl
  fetch-FetchKeeps evt (transaction t ∷ rest) = refl
  fetch-FetchKeeps evt (iterable [] w ∷ rest) = fetch-FetchKeeps evt rest
  fetch-FetchKeeps evt (iterable (yields t ∷ items) w ∷ rest) =
      ap (λ x. x ∷ (fields_of items ++ pending rest)) (sym (with_event-fields w evt t))
  fetch-FetchKeeps evt (iterable (unsuitable ∷ items) w ∷ rest) = refl

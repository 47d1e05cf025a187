-- ===== src/Funnel/Sources.antt =====
-- forastero/scoreboard.py, class FunnelChannel, under a model that sorts what it expects: every
-- transaction has an origin, a function of its fields, which names the queue that it is expected in.
use Prim.Native.String.{String}
use forastero.Prelude.{
  ◌≡◌, ◌≢◌, refl, sym, ap, ◌∙◌, List, [], ◌∷◌, ◌++◌, Bool, true, false, ◌||◌, if◌then◌else◌, Eq,
  append-nil, ◌=?=◌, string_eq, arith, Bool-cases, inl, inr, any,
}
use forastero.Transaction.{Transaction, tx_eq}
use forastero.Funnel.Moves.{head_matches, is_empty}

module _ {A : Type 0} where
  abbrev pub named : String → List (String × List A) → Bool
  named name [] = false
  named name ((key, es) ∷ queues) = key =?= name || named name queues

  pub named-middle :
      (name key : String) (es es' : List A) (before after : List (String × List A))
      → named name (before ++ (key, es) ∷ after) ≡ named name (before ++ (key, es') ∷ after)
  named-middle name key es es' [] after = refl
  named-middle name key es es' ((k, _) ∷ before) after =
      ap (λ b. k =?= name || b) (named-middle name key es es' before after)

  named-here :
      (name : String) (es : List A) (before after : List (String × List A))
      → named name (before ++ (name, es) ∷ after) ≡ true
  named-here name es [] after = rw ((string_eq.beq_iff name name).1 refl) refl
  named-here name es ((k, _) ∷ before) after = rw (named-here name es before after) (ground arith)

module _ {F : Type 0} where
  abbrev pub fields_of : List (Transaction F) → List F
  fields_of [] = []
  fields_of (t ∷ ts) = t.fields ∷ fields_of ts

  pub fields_of-append :
      (ts us : List (Transaction F)) → fields_of (ts ++ us) ≡ fields_of ts ++ fields_of us
  fields_of-append [] us = refl
  fields_of-append (t ∷ ts) us = ap (λ l. t.fields ∷ l) (fields_of-append ts us)

module _ {F : Type 0} (origin : F → String) where
  -- The fields of one origin, in their order.
  abbrev pub select : String → List (Transaction F) → List F
  select name [] = []
  select name (t ∷ ts) =
      if origin t.fields =?= name then t.fields ∷ select name ts else select name ts

  select-front :
      (name : String) (x : F) (xs : List F) (ts : List (Transaction F))
      → x ∷ xs ≡ select name ts
      → origin x ≡ name
  select-front name x xs [] h = cc
  select-front name x xs (t ∷ ts) h = elim (Bool-cases (origin t.fields =?= name)) [
    | inl same ↦
        let front : x ∷ xs ≡ t.fields ∷ select name ts = (rw same at h) in
        let its_name : origin t.fields ≡ name = (string_eq.beq_iff _ _).0 same in cc
    | inr other ↦ select-front name x xs ts (rw other at h)
  ]

  select-other :
      (name : String) (t : Transaction F) (ts : List (Transaction F))
      → origin t.fields ≢ name
      → select name (t ∷ ts) ≡ select name ts
  select-other name t ts other = elim (Bool-cases (origin t.fields =?= name)) [
    | inl same ↦ absurd (other ((string_eq.beq_iff _ _).0 same))
    | inr differ ↦ rw differ refl
  ]

  select-own :
      (name : String) (t : Transaction F) (ts : List (Transaction F))
      → origin t.fields ≡ name
      → select name (t ∷ ts) ≡ t.fields ∷ select name ts
  select-own name t ts own = rw ((string_eq.beq_iff _ _).1 own) refl

  -- Every queue, with what will still be pushed into it, is what is still to be compared of the
  -- transactions of its name; no name comes twice.
  abbrev pub Follows :
      (String → List (Transaction F))
      → List (Transaction F)
      → List (String × List (Transaction F))
      → Type 0
  Follows planned ts [] = Unit {0}
  Follows planned ts ((name, es) ∷ queues) =
      (named name queues ≡ false)
      × (fields_of es ++ fields_of (planned name) ≡ select name ts)
      × Follows planned ts queues

  -- Every transaction has a queue.
  abbrev pub Known : List (Transaction F) → List (String × List (Transaction F)) → Type 0
  Known [] queues = Unit {0}
  Known (t ∷ ts) queues = (named (origin t.fields) queues ≡ true) × Known ts queues

module _ {F : Type 0} (origin : F → String) (planned : String → List (Transaction F)) where
  Follows-elsewhere :
      (t : Transaction F) (ts : List (Transaction F))
      (queues : List (String × List (Transaction F)))
      → named (origin t.fields) queues ≡ false
      → Follows origin planned (t ∷ ts) queues
      → Follows origin planned ts queues
  Follows-elsewhere t ts [] none_here f = f
  Follows-elsewhere t ts ((name, es) ∷ queues) none_here (once, same, others) =
      elim (Bool-cases (name =?= origin t.fields)) [
        | inl here ↦ let wrong : true ≡ false = (rw here at none_here) in cc
        | inr other ↦ (
          once,
          same
              ∙ select-other origin name t ts (λ own.
                let here : (name =?= origin t.fields) ≡ true =
                  (string_eq.beq_iff _ _).1 (sym own) in
                cc),
          Follows-elsewhere t ts queues (rw other at none_here) others,
        )
      ]

  -- The front of the one queue of its origin is taken for a transaction.
  pub Follows-taken :
      (mon ref : Transaction F) (ts : List (Transaction F)) (name : String)
      (rest : List (Transaction F)) (before after : List (String × List (Transaction F)))
      → mon.fields ≡ ref.fields
      → Follows origin planned (mon ∷ ts) (before ++ (name, ref ∷ rest) ∷ after)
      → Follows origin planned ts (before ++ (name, rest) ∷ after) × (origin mon.fields ≡ name)
  Follows-taken mon ref ts name rest [] after equal (once, same, others) =
      let ref_own = select-front origin name ref.fields _ (mon ∷ ts) same in
      let own : origin mon.fields ≡ name = ap origin equal ∙ ref_own in
      let split = same ∙ select-own origin name mon ts own in
      ((once, cc, Follows-elsewhere mon ts after (rw own once) others), own)
  Follows-taken mon ref ts name rest ((key, es) ∷ before) after equal (once, same, others) =
      let (later, own) = Follows-taken mon ref ts name rest before after equal others in
      let once' = sym (named-middle key name (ref ∷ rest) rest before after) ∙ once in
      (
        (
          once',
          same
              ∙ select-other origin key mon ts (λ wrong.
                let same_name : key ≡ name = sym wrong ∙ own in
                let once' : named name (before ++ (name, ref ∷ rest) ∷ after) ≡ false =
                  (rw same_name at once) in
                let clash : true ≡ false =
                  sym (named-here name (ref ∷ rest) before after) ∙ once' in
                cc),
          later,
        ),
        own,
      )

module _ {F : Type 0} ⦃e : Eq F⦄ (origin : F → String)
    (planned : String → List (Transaction F)) where
  -- If every queue has an entry, the front of the queue of a transaction's origin matches it.
  pub Follows-matches :
      (mon : Transaction F) (ts : List (Transaction F))
      (queues : List (String × List (Transaction F)))
      → Follows origin planned (mon ∷ ts) queues
      → named (origin mon.fields) queues ≡ true
      → any is_empty queues ≡ false
      → any (head_matches mon) queues ≡ true
  unfolding tx_eq
  Follows-matches mon ts [] f here full = cc
  Follows-matches mon ts ((name, []) ∷ queues) f here full = cc
  Follows-matches mon ts ((name, ref ∷ rest) ∷ queues) (once, same, others) here full =
      elim (Bool-cases (name =?= origin mon.fields)) [
        | inl own ↦
            let split =
              same ∙ select-own origin name mon ts (sym ((string_eq.beq_iff _ _).0 own)) in
            let equal : ref.fields ≡ mon.fields = cc in rw ((e.beq_iff _ _).1 equal) refl
        | inr other ↦
            rw (Follows-matches mon ts queues others (rw other at here) full) (ground arith)
      ]

  -- If nothing more will be pushed, that front is there.
  pub Follows-found :
      (mon : Transaction F) (ts : List (Transaction F))
      (queues : List (String × List (Transaction F)))
      → Follows origin planned (mon ∷ ts) queues
      → named (origin mon.fields) queues ≡ true
      → planned (origin mon.fields) ≡ []
      → any (head_matches mon) queues ≡ true
  unfolding tx_eq
  Follows-found mon ts [] f here done = cc
  Follows-found mon ts ((name, es) ∷ queues) (once, same, others) here done =
      elim (Bool-cases (name =?= origin mon.fields)) [
        | inl own ↦
            let its_name : name ≡ origin mon.fields = (string_eq.beq_iff _ _).0 own in
            let split = same ∙ select-own origin name mon ts (sym its_name) in
            found_in es (rw (ap planned its_name ∙ done, append-nil (fields_of es)) at split)
        | inr other ↦ rw (Follows-found mon ts queues others (rw other at here) done) (ground arith)
      ]
    where
      found_in :
          (es : List (Transaction F))
          → fields_of es ≡ mon.fields ∷ select origin name ts
          → any (head_matches mon) ((name, es) ∷ queues) ≡ true
      found_in [] split = cc
      found_in (ref ∷ rest) split =
          let equal : ref.fields ≡ mon.fields = cc in rw ((e.beq_iff _ _).1 equal) refl

-- ===== src/Channel/Moves.antt =====
-- forastero/scoreboard.py, class Channel, as an abstract machine: what was captured, what is
-- expected and which pairs were reported.
use forastero.Prelude.{
  ℕ, ◌+◌, ◌<◌, ◌≤◌, ◌≡◌, ◌≢◌, ap, List, [], ◌∷◌, ◌++◌, some, Bool, true, false, ◌⊎◌, take,
  get_elem?, erase_idx, any, length, arith, Eq, not,
}
use forastero.Queue.Access.{pop_found, pop_entry_found}
use forastero.Transaction.{Transaction, tx_eq}
use forastero.Channel.{Channel, Config, Report, settle, finish, take_reference, resume_reference}
use forastero.Channel.Window.{matches}

pub record View (T : Type 0) : Type 0 where
  pub captured : List T
  pub expected : List T
  pub told : List (Report T)
  pub matched : ℕ
  pub mismatched : ℕ

abbrev pub view : {T : Type 0} → Channel T → View T
view c = record {
  captured = c.q_mon.entries;
  expected = c.q_ref.entries;
  told = c.reports;
  matched = c.matched;
  mismatched = c.mismatched;
}

abbrev pub as_count : Bool → ℕ
as_count true = 1
as_count false = 0

module _ {F : Type 0} ⦃e : Eq F⦄ where
  abbrev pub report : Transaction F → Transaction F → Report (Transaction F)
  report mon ref = record { mon = mon; ref = ref; equal = tx_eq mon ref }

  -- Which expected entry a captured one may be paired with: the first, if the window is 1; else
  -- the first equal one within the window, or the first of a full window that holds no equal one.
  abbrev pub Chosen : ℕ → Transaction F → List (Transaction F) → ℕ → Transaction F → Type 0
  Chosen window mon expected idx ref =
      ((window ≡ 1) × (idx ≡ 0))
      ⊎ ((window ≢ 1)
          × (idx < window)
          × (tx_eq ref mon ≡ true)
          × (any (matches mon) (take idx expected) ≡ false))
      ⊎ ((window ≢ 1)
          × (idx ≡ 0)
          × (window ≤ length expected)
          × (any (matches mon) (take window expected) ≡ false))

  pub data Move (window : ℕ) (v w : View (Transaction F)) : Type 0 where
    stay : w ≡ v → Move window v w
    pair :
        (mon ref : Transaction F) (idx : ℕ)
        → v.captured ≡ mon ∷ w.captured
        → get_elem? v.expected idx ≡ some ref
        → w.expected ≡ erase_idx v.expected idx
        → w.told ≡ v.told ++ report mon ref ∷ []
        → w.matched ≡ v.matched + as_count (tx_eq mon ref)
        → w.mismatched ≡ v.mismatched + as_count (not (tx_eq mon ref))
        → Chosen window mon v.expected idx ref
        → Move window v w

  module _ (cfg : Config) where
    abbrev pub after_pair :
        Transaction F
        → Transaction F
        → List (Transaction F)
        → ℕ
        → Channel (Transaction F)
        → Channel (Transaction F)
    after_pair mon ref rest idx c = settle cfg mon ref (record c {
      q_mon = record c.q_mon { entries = rest };
      q_ref = record c.q_ref { entries = erase_idx c.q_ref.entries idx };
    })

    pub view-settle :
        (mon ref : Transaction F) (c : Channel (Transaction F))
        → view (settle cfg mon ref c) ≡ record {
          captured = c.q_mon.entries;
          expected = c.q_ref.entries;
          told = c.reports ++ report mon ref ∷ [];
          matched = c.matched + as_count (tx_eq mon ref);
          mismatched = c.mismatched + as_count (not (tx_eq mon ref));
        }
    unfolding settle
    view-settle mon ref c = ground arith

    finish_lem :
        (mon ref : Transaction F) (rest : List (Transaction F)) (c : Channel (Transaction F))
        → c.q_mon.entries ≡ mon ∷ rest
        → finish cfg ref c
          ≡ settle cfg mon ref (record c { q_mon = record c.q_mon { entries = rest } })
    unfolding finish
    finish_lem mon ref rest c h =
        simp (pop_found c.next_event 0 c.q_mon mon (ground arith), finish)
          (ap
            (λ l.
              settle cfg mon ref (record c { q_mon = record c.q_mon { entries = erase_idx l 0 } }))
            h)

    pub take_reference_lem :
        (mon ref : Transaction F) (rest : List (Transaction F)) (idx : ℕ)
        (c : Channel (Transaction F))
        → c.q_mon.entries ≡ mon ∷ rest
        → get_elem? c.q_ref.entries idx ≡ some ref
        → take_reference cfg idx c ≡ after_pair mon ref rest idx c
    unfolding take_reference
    take_reference_lem mon ref rest idx c h there =
        simp (pop_found c.next_event idx c.q_ref ref there, take_reference)
          (finish_lem mon ref rest _ h)

    pub resume_reference_lem :
        (mon ref : Transaction F) (rest : List (Transaction F)) (c : Channel (Transaction F))
        → c.q_mon.entries ≡ mon ∷ rest
        → get_elem? c.q_ref.entries 0 ≡ some ref
        → resume_reference cfg c ≡ after_pair mon ref rest 0 c
    unfolding resume_reference
    resume_reference_lem mon ref rest c h there =
        simp (pop_entry_found 0 c.q_ref ref there, resume_reference) (finish_lem mon ref rest _ h)

-- ===== src/Channel/Account.antt =====
-- forastero/scoreboard.py, class Channel: the account of what was pushed, reported and counted.
use mathlib.Core.List.{Perm, map-append}
use mathlib.Core.List.Perm
use forastero.Prelude.{
  ℕ, zero, suc, ◌+◌, ◌<◌, ◌≡◌, refl, sym, ap, ◌∙◌, List, [], ◌∷◌, ◌++◌, some, get_elem?, erase_idx,
  arith, All, All-append, map, Eq, not, append_assoc, append-nil,
}
use forastero.Queue
use forastero.Queue.{Queue}
use forastero.Transaction.{Transaction, tx_eq}
use forastero.Channel.{Channel, Config, Report, push_monitor, push_reference, new}
use forastero.Channel.Moves.{View, view, Move, stay, pair, as_count, report}
use forastero.Channel.Invariant.{advance-Advances}
use forastero.Channel.Pairing.{IsReady}
use forastero.Channel.History.{
  Action, capture, expect, turn, captures, expects, run, perm_erase, push_monitor-Ready,
  push_reference-Ready,
}

module _ {F : Type 0} ⦃e : Eq F⦄ where
  abbrev pub mons_of : List (Report (Transaction F)) → List (Transaction F)
  mons_of told = map (λ r. r.mon) told

  abbrev pub refs_of : List (Report (Transaction F)) → List (Transaction F)
  refs_of told = map (λ r. r.ref) told

  -- How many of the reports are matches, and how many are mismatches.
  abbrev pub matches_in : List (Report (Transaction F)) → ℕ
  matches_in [] = 0
  matches_in (r ∷ rs) = as_count r.equal + matches_in rs

  abbrev pub mismatches_in : List (Report (Transaction F)) → ℕ
  mismatches_in [] = 0
  mismatches_in (r ∷ rs) = as_count (not r.equal) + mismatches_in rs

  -- What the pushes so far have become.
  pub record Account (window : ℕ) (mons refs : List (Transaction F)) (v : View (Transaction F))
      : Type 0 where
    pub captured_all : mons_of v.told ++ v.captured ≡ mons
    pub expected_all : Perm (refs_of v.told ++ v.expected) refs
    pub in_order : window ≡ 1 → refs_of v.told ++ v.expected ≡ refs
    pub hits : v.matched ≡ matches_in v.told
    pub misses : v.mismatched ≡ mismatches_in v.told
    pub honest : All (λ r. r.equal ≡ tx_eq r.mon r.ref) v.told

  matches_in-snoc :
      (told : List (Report (Transaction F))) (r : Report (Transaction F))
      → matches_in (told ++ r ∷ []) ≡ matches_in told + as_count r.equal
  matches_in-snoc [] r = omega arith
  matches_in-snoc (x ∷ told) r = omega (arith, matches_in-snoc told r)

  mismatches_in-snoc :
      (told : List (Report (Transaction F))) (r : Report (Transaction F))
      → mismatches_in (told ++ r ∷ []) ≡ mismatches_in told + as_count (not r.equal)
  mismatches_in-snoc [] r = omega arith
  mismatches_in-snoc (x ∷ told) r = omega (arith, mismatches_in-snoc told r)

  erase_first :
      (xs : List (Transaction F)) (idx : ℕ) {x : Transaction F}
      → idx ≡ 0
      → get_elem? xs idx ≡ some x
      → x ∷ erase_idx xs idx ≡ xs
  erase_first [] idx z h = ground arith
  erase_first (y ∷ xs) zero z h = ground arith
  erase_first (y ∷ xs) (suc idx) z h = absurd (omega arith)

  module _ {window : ℕ} {mons refs : List (Transaction F)} where
    Account-pair :
        (v w : View (Transaction F)) (mon ref : Transaction F) (idx : ℕ)
        → v.captured ≡ mon ∷ w.captured
        → get_elem? v.expected idx ≡ some ref
        → w.expected ≡ erase_idx v.expected idx
        → w.told ≡ v.told ++ report mon ref ∷ []
        → w.matched ≡ v.matched + as_count (tx_eq mon ref)
        → w.mismatched ≡ v.mismatched + as_count (not (tx_eq mon ref))
        → (window ≡ 1 → idx ≡ 0)
        → Account window mons refs v
        → Account window mons refs w
    Account-pair v w mon ref idx front there erased told hit missed first a = record {
      captured_all = rw (told, map-append, append_assoc, ← front) a.captured_all;
      expected_all =
          rw (told, map-append, append_assoc, erased)
            (Perm.trans (Perm.append_left (refs_of v.told) (perm_erase v.expected idx there))
              a.expected_all);
      in_order = λ one.
          rw (told, map-append, append_assoc, erased)
            (ap (λ l. refs_of v.told ++ l) (erase_first v.expected idx (first one) there)
              ∙ a.in_order one);
      hits = rw told (omega (arith, matches_in-snoc v.told (report mon ref), a.hits));
      misses = rw told (omega (arith, mismatches_in-snoc v.told (report mon ref), a.misses));
      honest = rw told (All-append _ v.told (report mon ref ∷ []) a.honest (refl, tt));
    }

    Account-Move :
        (v w : View (Transaction F))
        → Move window v w
        → Account window mons refs v
        → Account window mons refs w
    Account-Move v w (stay same) a = rw same a
    Account-Move v w (pair mon ref idx front there erased told hit missed chosen) a =
        Account-pair v w mon ref idx front there erased told hit missed (λ one. ground arith) a

    Account-capture :
        (t : Transaction F) (c : Channel (Transaction F))
        → Account window mons refs (view c)
        → Account window (mons ++ t ∷ []) refs (view (push_monitor t c))
    unfolding push_monitor Queue.push
    Account-capture t c a = record {
      captured_all =
          sym (append_assoc (mons_of c.reports) c.q_mon.entries (t ∷ []))
          ∙ ap (λ l. l ++ t ∷ []) a.captured_all;
      expected_all = a.expected_all;
      in_order = a.in_order;
      hits = a.hits;
      misses = a.misses;
      honest = a.honest;
    }

    Account-expect :
        (t : Transaction F) (c : Channel (Transaction F))
        → Account window mons refs (view c)
        → Account window mons (refs ++ t ∷ []) (view (push_reference t c))
    unfolding push_reference Queue.push
    Account-expect t c a = record {
      captured_all = a.captured_all;
      expected_all =
          rw (← append_assoc (refs_of c.reports) c.q_ref.entries (t ∷ []))
            (Perm.append_right (t ∷ []) a.expected_all);
      in_order = λ one.
          sym (append_assoc (refs_of c.reports) c.q_ref.entries (t ∷ []))
          ∙ ap (λ l. l ++ t ∷ []) (a.in_order one);
      hits = a.hits;
      misses = a.misses;
      honest = a.honest;
    }

module _ {F : Type 0} ⦃e : Eq F⦄ (cfg : Config) (pos : 0 < cfg.match_window) where
  -- A channel whose loop stands at an await, and which has dealt with the given pushes.
  pub record Kept (mons refs : List (Transaction F)) (c : Channel (Transaction F)) : Type 0 where
    pub ready : IsReady cfg.match_window c
    pub account : Account cfg.match_window mons refs (view c)

  run-Kept :
      (actions : List (Action (Transaction F))) {mons refs : List (Transaction F)}
      (c : Channel (Transaction F))
      → Kept mons refs c
      → Kept (mons ++ captures actions) (refs ++ expects actions) (run cfg actions c)
  unfolding run
  run-Kept [] {mons} {refs} c k = rw (append-nil mons, append-nil refs) k
  run-Kept (capture t ∷ more) {mons} {refs} c k =
      rw (← append_assoc mons (t ∷ []) (captures more)) (
        run-Kept more _ (record {
          ready =
              unfold push_monitor in
              push_monitor-Ready cfg.match_window t c.stage c.q_mon c.q_ref c.locked k.ready;
          account = Account-capture t c k.account;
        }))
  run-Kept (expect t ∷ more) {mons} {refs} c k = rw (← append_assoc refs (t ∷ []) (expects more)) (
      run-Kept more _ (record {
        ready =
            unfold push_reference in
            push_reference-Ready cfg.match_window t c.stage c.q_mon c.q_ref c.locked k.ready;
        account = Account-expect t c k.account;
      }))
  run-Kept (turn ∷ more) c k =
      let (move, ready) = advance-Advances cfg pos c k.ready in
      run-Kept more _ (record { ready = ready; account = Account-Move _ _ move k.account })

  -- After any interleaving of captures, expectations and turns of the loop on a new channel: every
  -- captured transaction was reported once, in the order of capture, or is still queued; the same
  -- holds of the expected ones up to their order, and with a matching window of 1 in that order;
  -- each report says whether its two transactions are equal, and the two counters count them. The
  -- loop stands at one of its awaits, or was ended by a residence error or a mismatch that raised.
  pub run-new-Kept :
      (actions : List (Action (Transaction F)))
      → Kept (captures actions) (expects actions) (run cfg actions new)
  unfolding new
  run-new-Kept actions = run-Kept actions new (record {
    ready = refl;
    account = record {
      captured_all = refl;
      expected_all = Perm.rfl;
      in_order = λ _. refl;
      hits = refl;
      misses = refl;
      honest = tt;
    };
  })

-- ===== src/Channel/Drain.antt =====
-- forastero/scoreboard.py: Channel.drain and Channel._polling, and what draining achieves.
use mathlib.Core.List.{Perm}
use forastero.Prelude.{
  ℕ, ◌+◌, ◌-◌, ◌<◌, ◌≡◌, refl, sym, ap, ◌∙◌, List, [], ◌∷◌, ◌++◌, Option, none, some, Bool, false,
  ◌||◌, ◌↔◌, length, arith, Eq, ltb, if◌then◌else◌, append-nil, subst,
}
use forastero.Queue
use forastero.Queue.{Queue}
use forastero.Transaction.{Transaction}
use forastero.Channel.{
  Channel, Config, Report, DrainPolicy, mon_and_ref, mon_only, ref_only, non_blocking, new, total,
}
use forastero.Channel.History.{Action, captures, expects, run}
use forastero.Channel.Account.{Kept, run-new-Kept, mons_of, refs_of, matches_in, mismatches_in}

module _ {T : Type 0} where
  unfoldable pub monitor_depth : Channel T → ℕ
  unfolding Queue.level
  monitor_depth c = Queue.level c.q_mon

  unfoldable pub reference_depth : Channel T → ℕ
  unfolding Queue.level
  reference_depth c = Queue.level c.q_ref

-- The conditions of the `while` loops of `drain`, on the depths of the two sides.
unfoldable pub drain_waits : DrainPolicy → ℕ → ℕ → Bool
drain_waits mon_and_ref mon_depth ref_depth = ltb 0 mon_depth || ltb 0 ref_depth
drain_waits mon_only mon_depth ref_depth = ltb 0 mon_depth
drain_waits ref_only mon_depth ref_depth = ltb 0 ref_depth
drain_waits non_blocking mon_depth ref_depth = false

-- "Reference queue … still contains n items", and the same of the monitor queue.
pub data Warning : Type 0 where
  reference_left monitor_left : ℕ → Warning

pub data DrainState : Type 0 where
  at_edge : DrainState
  at_drain_lock drained : List Warning → DrainState

unfoldable pub drain_warnings : ℕ → ℕ → List Warning
drain_warnings mon_depth ref_depth =
    (if ltb 0 ref_depth then reference_left ref_depth ∷ [] else [])
    ++ (if ltb 0 mon_depth then monitor_left mon_depth ∷ [] else [])

-- How far a call of `drain` gets while the channel stays as it is: to the next clock edge, to
-- the lock, or to its end.
unfoldable pub drain_at : DrainPolicy → ℕ → ℕ → Bool → DrainState
unfolding drain_waits drain_warnings
drain_at policy mon_depth ref_depth locked =
    if drain_waits policy mon_depth ref_depth
    then at_edge
    else if locked
    then at_drain_lock (drain_warnings mon_depth ref_depth)
    else drained (drain_warnings mon_depth ref_depth)

unfoldable pub drain : {T : Type 0} → DrainPolicy → Channel T → DrainState
unfolding drain_at monitor_depth reference_depth
drain policy c = drain_at policy (monitor_depth c) (reference_depth c) c.locked

pub data Poll : Type 0 where
  carry_on : Poll
  channel_timeout : ℕ → Poll

module _ {F : Type 0} where
  -- The test of `_polling` on the monitor queue's entries, at the time `now`. An age below zero
  -- exceeds no timeout, and is 0 here.
  unfoldable pub poll_front : Option ℕ → ℕ → List (Transaction F) → Poll
  poll_front none now entries = carry_on
  poll_front (some timeout) now [] = carry_on
  poll_front (some timeout) now (t ∷ rest) =
      if ltb timeout (now - t.timestamp) then channel_timeout (now - t.timestamp) else carry_on

  -- One round of `_polling`.
  unfoldable pub poll : ℕ → Config → Channel (Transaction F) → Poll
  poll now cfg c = poll_front cfg.timeout_ns now c.q_mon.entries

  -- A timeout is set, and the transaction at the front is `age` old, which exceeds it.
  abbrev pub Overdue : Option ℕ → ℕ → ℕ → List (Transaction F) → Type 0
  Overdue timeout now age [] = ⊥
  Overdue timeout now age (t ∷ rest) =
      (limit : ℕ) × (timeout ≡ some limit) × (t.timestamp + age ≡ now) × (limit < age)

  poll_front_iff :
      (timeout : Option ℕ) (now age : ℕ) (entries : List (Transaction F))
      → (poll_front timeout now entries ≡ channel_timeout age) ↔ Overdue timeout now age entries
  unfolding poll_front
  poll_front_iff none now age [] = ((λ h. cc), λ h. absurd h)
  poll_front_iff none now age (t ∷ rest) = ((λ h. cc), λ h. cc (h.1))
  poll_front_iff (some limit) now age [] = ((λ h. cc), λ h. absurd h)
  poll_front_iff (some limit) now age (t ∷ rest) =
      ((λ h. (limit, refl, ground arith, ground arith)), λ (k, e, old, over). ground arith)

  -- The polling loop raises ChannelTimeoutError with an age exactly when a timeout is set and the
  -- transaction at the front of the monitor queue has that age, which exceeds the timeout.
  pub poll-timeout_iff :
      (now age : ℕ) (cfg : Config) (c : Channel (Transaction F))
      → (poll now cfg c ≡ channel_timeout age) ↔ Overdue cfg.timeout_ns now age c.q_mon.entries
  unfolding poll
  poll-timeout_iff now age cfg c = poll_front_iff cfg.timeout_ns now age c.q_mon.entries

module _ {F : Type 0} ⦃e : Eq F⦄ (cfg : Config) (pos : 0 < cfg.match_window) where
  length-mons_of :
      (told : List (Report (Transaction F)))
      → length (mons_of told) ≡ matches_in told + mismatches_in told
  length-mons_of [] = omega arith
  length-mons_of (r ∷ told) = ground (arith, length-mons_of told)

  -- What a drained channel has done with the pushes.
  pub record Settled (mons refs : List (Transaction F)) (c : Channel (Transaction F)) : Type 0 where
    pub all_captured : mons_of c.reports ≡ mons
    pub all_expected : Perm (refs_of c.reports) refs
    pub all_counted : total c ≡ length mons

  drain_empty :
      (c : Channel (Transaction F)) (warnings : List Warning)
      → drain mon_and_ref c ≡ drained warnings
      → (c.q_mon.entries ≡ []) × (c.q_ref.entries ≡ []) × (warnings ≡ [])
  unfolding drain
  drain_empty c warnings h = ground arith

  Kept-Settled :
      {mons refs : List (Transaction F)} (c : Channel (Transaction F))
      → Kept cfg pos mons refs c
      → c.q_mon.entries ≡ []
      → c.q_ref.entries ≡ []
      → Settled mons refs c
  unfolding total
  Kept-Settled {mons} {refs} c k no_mon no_ref = record {
    all_captured = captured;
    all_expected =
        subst (λ l. Perm l refs) (ap (λ l. refs_of c.reports ++ l) no_ref ∙ append-nil _)
          k.account.expected_all;
    all_counted =
        omega
          (arith, length-mons_of c.reports, ap length captured, k.account.hits, k.account.misses);
  }
    where
      captured : mons_of c.reports ≡ mons
      captured =
          sym (append-nil _)
          ∙ ap (λ l. mons_of c.reports ++ l) (sym no_mon)
          ∙ k.account.captured_all

  -- If a drain under the default policy comes to its end, at any moment of any interleaving of
  -- captures, expectations and turns of the loop, then each captured and each expected transaction
  -- was reported, each in one report, the counters add up to their number, and no warning is logged.
  pub drain_settles :
      (actions : List (Action (Transaction F))) (warnings : List Warning)
      → drain mon_and_ref (run cfg actions new) ≡ drained warnings
      → Settled (captures actions) (expects actions) (run cfg actions new) × (warnings ≡ [])
  drain_settles actions warnings h =
      let c = run cfg actions new in
      let (no_mon, no_ref, silent) = drain_empty c warnings h in
      (Kept-Settled c (run-new-Kept cfg pos actions) no_mon no_ref, silent)

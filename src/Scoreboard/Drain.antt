-- ===== src/Scoreboard/Drain.antt =====
-- forastero/scoreboard.py: Scoreboard.drain, which drains the channels one behind the other.
use Prim.Native.String.{String}
use forastero.Prelude.{
  ℕ, ◌≡◌, ◌↔◌, inl, inr, refl, List, [], ◌∷◌, Option, none, some, Bool, true, false, All, arith,
  Bool-cases, if◌then◌else◌,
}
use forastero.Transaction.{Transaction}
use forastero.Channel.{DrainPolicy, mon_and_ref, mon_only, ref_only, non_blocking}
use forastero.Channel.Drain
use forastero.Channel.Drain.{
  Warning, DrainState, at_edge, at_drain_lock, drained, drain_at, drain_waits, monitor_depth,
  reference_depth, drain_warnings,
}
use forastero.Funnel
use forastero.Scoreboard.{Scoreboard, Attached, Kind, plain, funnel}

-- What a drain policy asks of the depths of the two sides.
abbrev pub Clear : DrainPolicy → ℕ → ℕ → Type 0
Clear mon_and_ref mon_depth ref_depth = (mon_depth ≡ 0) × (ref_depth ≡ 0)
Clear mon_only mon_depth ref_depth = mon_depth ≡ 0
Clear ref_only mon_depth ref_depth = ref_depth ≡ 0
Clear non_blocking mon_depth ref_depth = Unit

waits_iff :
    (policy : DrainPolicy) (mon_depth ref_depth : ℕ)
    → (drain_waits policy mon_depth ref_depth ≡ false) ↔ Clear policy mon_depth ref_depth
unfolding drain_waits
waits_iff mon_and_ref mon_depth ref_depth =
    ((λ h. (ground arith, ground arith)), λ (a, b). ground arith)
waits_iff mon_only mon_depth ref_depth = ((λ h. ground arith), λ h. ground arith)
waits_iff ref_only mon_depth ref_depth = ((λ h. ground arith), λ h. ground arith)
waits_iff non_blocking mon_depth ref_depth = ((λ h. tt), λ h. refl)

settled_iff :
    {P : Type 0} (locked : Bool) (ws : List Warning)
    → P
    → ((warnings : List Warning) × ((if locked then at_drain_lock ws else drained ws)
          ≡ drained warnings))
      ↔ (P × (locked ≡ false))
settled_iff true ws p = ((λ (w, h). cc), λ (p, h). cc)
settled_iff false ws p = ((λ (w, h). (p, refl)), λ (p, h). (_, refl))

drain_at_iff :
    (policy : DrainPolicy) (mon_depth ref_depth : ℕ) (locked : Bool)
    → ((warnings : List Warning) × (drain_at policy mon_depth ref_depth locked ≡ drained warnings))
      ↔ (Clear policy mon_depth ref_depth × (locked ≡ false))
unfolding drain_at
drain_at_iff policy mon_depth ref_depth locked =
    let (fwd, bwd) = waits_iff policy mon_depth ref_depth in
    elim (Bool-cases (drain_waits policy mon_depth ref_depth)) [
      | inl waits ↦ simp waits ((λ (w, h). cc), λ (clear, free). cc (waits, bwd clear))
      | inr no_wait ↦ simp no_wait (settled_iff locked _ (fwd no_wait))
    ]

-- The `await channel.drain()` of the loop, before the later channels.
abbrev pub then_drain :
    String → DrainState → Option (String × DrainState) → Option (String × DrainState)
then_drain name at_edge later = some (name, at_edge)
then_drain name (at_drain_lock warnings) later = some (name, at_drain_lock warnings)
then_drain name (drained warnings) later = later

then_drain_iff :
    {P Q : Type 0} (name : String) (s : DrainState) (later : Option (String × DrainState))
    → ((warnings : List Warning) × (s ≡ drained warnings)) ↔ P
    → (later ≡ none) ↔ Q
    → (then_drain name s later ≡ none) ↔ (P × Q)
then_drain_iff name at_edge later (fwd, bwd) q = ((λ h. cc), λ (p, _). let (w, h) = bwd p in cc)
then_drain_iff name (at_drain_lock _) later (fwd, bwd) q =
    ((λ h. cc), λ (p, _). let (w, h) = bwd p in cc)
then_drain_iff name (drained w) later (fwd, bwd) (fwds, bwds) =
    ((λ h. (fwd (w, refl), fwds h)), λ (_, q). bwds q)

module _ {F : Type 0} where
  -- `channel.drain()`, with the depth of the channel's class.
  unfoldable pub drain_kind : DrainPolicy → Kind (Transaction F) → DrainState
  drain_kind policy (plain c) = Drain.drain policy c
  drain_kind policy (funnel c) =
      drain_at policy (monitor_depth c.base) (Funnel.reference_depth c) c.base.locked

  -- The first channel that is not drained and what its `drain` waits for, or `none` at the end.
  unfoldable pub drain_channels : List (String × Attached F) → Option (String × DrainState)
  drain_channels [] = none
  drain_channels ((name, a) ∷ channels) =
      then_drain name (drain_kind a.config.drain_policy a.kind) (drain_channels channels)

  unfoldable pub drain : Scoreboard F → Option (String × DrainState)
  drain board = drain_channels board.channels

  -- The policy is met, and no comparison is under way.
  abbrev pub IsClearKind : DrainPolicy → Kind (Transaction F) → Type 0
  IsClearKind policy (plain c) =
      Clear policy (monitor_depth c) (reference_depth c) × (c.locked ≡ false)
  IsClearKind policy (funnel c) =
      Clear policy (monitor_depth c.base) (Funnel.reference_depth c) × (c.base.locked ≡ false)

  abbrev pub IsClear : String × Attached F → Type 0
  IsClear (name, a) = IsClearKind a.config.drain_policy a.kind

  drain_kind_iff :
      (policy : DrainPolicy) (k : Kind (Transaction F))
      → ((warnings : List Warning) × (drain_kind policy k ≡ drained warnings))
        ↔ IsClearKind policy k
  unfolding drain_kind Drain.drain
  drain_kind_iff policy (plain c) = drain_at_iff policy _ _ c.locked
  drain_kind_iff policy (funnel c) = drain_at_iff policy _ _ c.base.locked

  drain_channels_iff :
      (channels : List (String × Attached F))
      → (drain_channels channels ≡ none) ↔ All IsClear channels
  unfolding drain_channels
  drain_channels_iff [] = ((λ _. tt), λ _. refl)
  drain_channels_iff ((name, a) ∷ channels) =
      then_drain_iff name _ (drain_channels channels) (drain_kind_iff a.config.drain_policy a.kind)
        (drain_channels_iff channels)

  -- The drain of a scoreboard comes to its end, with the scoreboard as it stands, exactly when every
  -- channel's policy is met by the depths of its queues and no channel holds its lock.
  pub drain-none_iff : (board : Scoreboard F) → (drain board ≡ none) ↔ All IsClear board.channels
  unfolding drain
  drain-none_iff board = drain_channels_iff board.channels

-- ===== src/Scoreboard/Kinds.antt =====
-- forastero/scoreboard.py, class Scoreboard: what each operation does to the channel
-- behind a name.
use Prim.Native.String.{String}
use forastero.Prelude.{
  ◌+◌, ◌<◌, ◌≡◌, ◌↔◌, inl, inr, refl, sym, ap, ◌∙◌, List, [], ◌∷◌, ◌++◌, append-nil, Option, none,
  some, Bool, true, Eq, string_eq, length, All, arith, Bool-cases, Option-cases,
}
use forastero.Transaction.{Transaction, tx_eq}
use forastero.Channel
use forastero.Channel.{
  Channel, Stage, idle, at_monitor, at_lock, at_reference, at_push, at_pop, failed, Config, Report,
}
use forastero.Channel.Moves as ChannelMoves
use forastero.Channel.Moves.{as_count, report}
use forastero.Channel.History.{push_monitor-Ready, push_reference-Ready}
use forastero.Channel.Pairing
use forastero.Channel.Invariant.{advance-Advances}
use forastero.Funnel
use forastero.Funnel.{push_at}
use forastero.Funnel.Pushes.{funnel-capture, push_at-some, add_queue-some, add_queues-some}
use forastero.Funnel.Moves as FunnelMoves
use forastero.Funnel.Moves.{contents}
use forastero.Funnel.Invariant as FunnelInvariant
use forastero.Funnel.Invariant.{Ready, advance-FunnelAdvances}
use forastero.Scoreboard.Attach.{effective_window_pos, make_channel_plain, make_channel_funnel}
use forastero.Scoreboard.{
  Settings, Attached, Kind, plain, funnel, make_channel, sample_kind, reference_kind, base_of,
  mismatch_calls, advance_kind,
}

module _ {F : Type 0} ⦃e : Eq F⦄ where
  abbrev pub Honest : List (Report (Transaction F)) → Type 0
  Honest reports = All (λ (r : Report (Transaction F)). r.equal ≡ tx_eq r.mon r.ref) reports

  -- Every pair that a channel's loop reported compares equal.
  abbrev pub AllEqual : List (Report (Transaction F)) → Type 0
  AllEqual reports = All (λ (r : Report (Transaction F)). tx_eq r.mon r.ref ≡ true) reports

  pub calls-append :
      (name : String) (xs ys : List (Report (Transaction F)))
      → length (mismatch_calls name (xs ++ ys))
        ≡ length (mismatch_calls name xs) + length (mismatch_calls name ys)
  unfolding mismatch_calls
  calls-append name [] ys = omega arith
  calls-append name (r ∷ xs) ys = ground (arith, calls-append name xs ys)

  pub calls-AllEqual :
      (name : String) (reports : List (Report (Transaction F)))
      → Honest reports
      → (length (mismatch_calls name reports) ≡ 0) ↔ AllEqual reports
  unfolding mismatch_calls
  calls-AllEqual name [] h = ((λ _. tt), λ _. refl)
  calls-AllEqual name (r ∷ reports) (h, hs) =
      let (fwd, bwd) = calls-AllEqual name reports hs in
      elim (Bool-cases r.equal) [
        | inl same ↦ simp same ((λ n. (sym h ∙ same, fwd n)), λ (a, more). bwd more)
        | inr other ↦ simp other ((λ n. cc), λ (a, more). cc (a, h, other))
      ]

  -- The reports behind a turn are those before it and honest new ones.
  abbrev pub Grown : List (Report (Transaction F)) → List (Report (Transaction F)) → Type 0
  Grown before after =
      (fresh : List (Report (Transaction F))) × (after ≡ before ++ fresh) × Honest fresh

  abbrev pub IsReady : Config → Kind (Transaction F) → Type 0
  IsReady cfg (plain c) = (0 < cfg.match_window) × Channel.Pairing.IsReady cfg.match_window c
  IsReady cfg (funnel c) = FunnelInvariant.IsReady c

  pub advance_kind-Grown :
      (cfg : Config) (k : Kind (Transaction F))
      → IsReady cfg k
      → IsReady cfg (advance_kind cfg k)
        × Grown (base_of k).reports (base_of (advance_kind cfg k)).reports
  unfolding advance_kind base_of
  advance_kind-Grown cfg (plain c) (pos, r) =
      let (m, r') = advance-Advances cfg pos c r in
      (
        (pos, r'),
        elim m [
          | ChannelMoves.stay e' ↦ (
            [],
            ap (λ (v : ChannelMoves.View (Transaction F)). v.told) e' ∙ sym (append-nil _),
            tt,
          )
          | ChannelMoves.pair mon ref idx _ _ _ told _ _ _ ↦ (report mon ref ∷ [], told, (refl, tt))
        ],
      )
  advance_kind-Grown cfg (funnel c) r =
      let (m, r') = advance-FunnelAdvances cfg c r in
      (
        r',
        elim m [
          | FunnelMoves.stay e' ↦ (
            [],
            ap (λ (v : FunnelMoves.View (Transaction F)). v.told) e' ∙ sym (append-nil _),
            tt,
          )
          | FunnelMoves.pair mon ref t _ told _ _ _ ↦ (report mon ref ∷ [], told, (refl, tt))
        ],
      )

  -- A channel keeps its reports and can go on.
  abbrev pub Keeps : Config → Kind (Transaction F) → Kind (Transaction F) → Type 0
  Keeps cfg k k' = IsReady cfg k' × ((base_of k').reports ≡ (base_of k).reports)

  capture_kind-Keeps :
      (cfg : Config) (t : Transaction F) (k : Kind (Transaction F))
      → IsReady cfg k
      → Keeps cfg k (sample_kind none t k)
  unfolding sample_kind Channel.sample base_of Channel.push_monitor
  capture_kind-Keeps cfg t (plain c) (pos, r) =
      ((pos, push_monitor-Ready cfg.match_window t c.stage c.q_mon c.q_ref c.locked r), refl)
  capture_kind-Keeps cfg t (funnel c) (r, q) = ((funnel-capture t c.base.stage c.base r, q), refl)

  sample-dropped :
      (filter_fn : Transaction F → Option (Transaction F)) (t : Transaction F)
      (k : Kind (Transaction F))
      → filter_fn t ≡ none
      → sample_kind (some filter_fn) t k ≡ k
  unfolding sample_kind Channel.sample
  sample-dropped filter_fn t (plain c) h = simp h refl
  sample-dropped filter_fn t (funnel c) h = simp h refl

  sample-changed :
      (filter_fn : Transaction F → Option (Transaction F)) (t t' : Transaction F)
      (k : Kind (Transaction F))
      → filter_fn t ≡ some t'
      → sample_kind (some filter_fn) t k ≡ sample_kind none t' k
  unfolding sample_kind Channel.sample
  sample-changed filter_fn t t' (plain c) h = simp h refl
  sample-changed filter_fn t t' (funnel c) h = simp h refl

  pub sample_kind-Keeps :
      (cfg : Config) (filter_fn : Option (Transaction F → Option (Transaction F)))
      (t : Transaction F) (k : Kind (Transaction F))
      → IsReady cfg k
      → Keeps cfg k (sample_kind filter_fn t k)
  sample_kind-Keeps cfg none t k r = capture_kind-Keeps cfg t k r
  sample_kind-Keeps cfg (some filter_fn) t k r = elim (Option-cases (filter_fn t)) [
    | inl dropped ↦ rw (sample-dropped filter_fn t k dropped) (r, refl)
    | inr (t', changed) ↦
        rw (sample-changed filter_fn t t' k changed) (capture_kind-Keeps cfg t' k r)
  ]

  abbrev pub KeepsIfSome : Config → Kind (Transaction F) → Option (Kind (Transaction F)) → Type 0
  KeepsIfSome cfg k none = Unit
  KeepsIfSome cfg k (some k') = Keeps cfg k k'

  pub reference_kind-Keeps :
      (cfg : Config) (queue : Option String) (t : Transaction F) (k : Kind (Transaction F))
      → IsReady cfg k
      → KeepsIfSome cfg k (reference_kind queue t k)
  unfolding reference_kind Channel.push_reference base_of Funnel.push_reference
  reference_kind-Keeps cfg none t (plain c) (pos, r) =
      ((pos, push_reference-Ready cfg.match_window t c.stage c.q_mon c.q_ref c.locked r), refl)
  reference_kind-Keeps cfg (some queue) t (plain c) r = tt
  reference_kind-Keeps cfg none t (funnel c) r = tt
  reference_kind-Keeps cfg (some queue) t (funnel c) (r, q) =
      elim (Bool-cases (Funnel.has_queue queue c.queues)) [
        | inl known ↦ simp (known, reference_kind) ((r, push_at-some queue t c.queues q), refl)
        | inr unknown ↦ simp (unknown, reference_kind) tt
      ]

  pub make_channel-IsReady :
      (fail_fast : Bool) (s : Settings F) (queues : List String) (a : Attached F)
      → make_channel fail_fast s queues ≡ some a
      → IsReady a.config a.kind × ((base_of a.kind).reports ≡ [])
  unfolding make_channel base_of Channel.new Funnel.new Funnel.add_queues
  make_channel-IsReady fail_fast s [] a made =
      let (n, accepted, here) = make_channel_plain fail_fast s a made in
      rw here ((effective_window_pos s.match_window n accepted, refl), refl)
  make_channel-IsReady fail_fast s (queue ∷ queues) a made =
      rw (make_channel_funnel fail_fast s queue queues a made)
        ((refl, add_queues-some queues _ (add_queue-some queue [])), refl)

-- ===== src/Monitor/Channels.antt =====
-- forastero/scoreboard.py: the channel that a name stands for, what a sample leaves in its monitor's
-- queue, and what a change or an attachment does to it.
use mathlib.Core.Option
use Prim.Native.String.{String}
use forastero.Prelude.{
  ◌≡◌, ◌≢◌, refl, sym, ap, ◌∙◌, List, [], ◌∷◌, ◌++◌, Option, none, some, Bool, true, false, Eq,
  ◌=?=◌, string_eq, arith, append_assoc, append-nil, if◌then◌else◌, Bool-cases, inl, inr,
}
use forastero.Queue
use forastero.Queue.{Queue}
use forastero.Transaction.{Transaction}
use forastero.Channel
use forastero.Funnel
use forastero.Scoreboard.Attach.{make_channel_plain, make_channel_funnel, attach-some}
use forastero.Scoreboard.{
  Scoreboard, Settings, Attached, Kind, plain, funnel, base_of, sample_kind, attach, change_at,
  make_channel, has_channel,
}

module _ {F : Type 0} where
  pub channel_of : String → List (String × Attached F) → Option (Attached F)
  channel_of name [] = none
  channel_of name ((key, a) ∷ channels) = if key =?= name then some a else channel_of name channels

  -- What a filter leaves of a transaction, and of a list of them.
  abbrev pub kept :
      Option (Transaction F → Option (Transaction F)) → Transaction F → List (Transaction F)
  kept none t = t ∷ []
  kept (some filter_fn) t = elim (filter_fn t) [ none ↦ [] | some t' ↦ t' ∷ [] ]

  abbrev pub filtered :
      Option (Transaction F → Option (Transaction F)) → List (Transaction F) → List (Transaction F)
  filtered f [] = []
  filtered f (t ∷ ts) = kept f t ++ filtered f ts

  abbrev pub entries : Attached F → List (Transaction F)
  entries a = (base_of a.kind).q_mon.entries

module _ {F : Type 0} ⦃e : Eq F⦄ where
  sample-entries :
      (f : Option (Transaction F → Option (Transaction F))) (t : Transaction F)
      (c : Channel.Channel (Transaction F))
      → (Channel.sample f t c).q_mon.entries ≡ c.q_mon.entries ++ kept f t
  unfolding Channel.sample Channel.push_monitor Queue.push
  sample-entries none t c = refl
  sample-entries (some f) t c =
      elim (f t)
        as (λ o.
          (elim o as (λ _. Channel.Channel (Transaction F)) [
            | none ↦ c
            | some t' ↦ Channel.push_monitor t' c
          ]).q_mon.entries
          ≡ c.q_mon.entries
            ++ elim o as (λ _. List (Transaction F)) [ none ↦ [] | some t' ↦ t' ∷ [] ]) [
              | none ↦ sym (append-nil c.q_mon.entries)
              | some t' ↦ refl
            ]

  sample_kind-entries :
      (f : Option (Transaction F → Option (Transaction F))) (t : Transaction F)
      (k : Kind (Transaction F))
      → (base_of (sample_kind f t k)).q_mon.entries ≡ (base_of k).q_mon.entries ++ kept f t
  unfolding sample_kind base_of
  sample_kind-entries f t (plain c) = sample-entries f t c
  sample_kind-entries f t (funnel c) = sample-entries f t c.base

  abbrev pub sampled : Transaction F → Attached F → Attached F
  sampled t a = record a { kind = sample_kind a.filter_fn t a.kind }

  abbrev pub sampled_all : List (Transaction F) → Attached F → Attached F
  sampled_all [] a = a
  sampled_all (t ∷ ts) a = sampled_all ts (sampled t a)

  pub sampled_all-entries :
      (ts : List (Transaction F)) (a : Attached F)
      → entries (sampled_all ts a) ≡ entries a ++ filtered a.filter_fn ts
  sampled_all-entries [] a = sym (append-nil (entries a))
  sampled_all-entries (t ∷ ts) a =
      sampled_all-entries ts (sampled t a)
      ∙ rw (sample_kind-entries a.filter_fn t a.kind) (append_assoc (entries a) _ _)

  -- A change of the channel `name` that does not raise is made on it alone.
  pub change_at-channel_of :
      (name : String) (f : Attached F → Kind (Transaction F))
      (channels : List (String × Attached F)) (a : Attached F)
      → channel_of name channels ≡ some a
      → (channels' : List (String × Attached F)) × (change_at name (λ b. some (f b)) channels
          ≡ some channels')
        × (channel_of name channels' ≡ some (record a { kind = f a }))
        × ((n : String) → n ≢ name → channel_of n channels' ≡ channel_of n channels)
  unfolding change_at channel_of
  change_at-channel_of name f [] a h = cc
  change_at-channel_of name f ((key, b) ∷ channels) a h = elim (Bool-cases (key =?= name)) [
    | inl same ↦
        let found : some b ≡ some a = (rw same at h) in
        (
          (key, record b { kind = f b }) ∷ channels,
          rw same refl,
          rw same (ap (Option.map {A = Attached F} (λ c. record c { kind = f c })) found),
          λ n ne. ground (arith, string_eq.beq_iff key n, string_eq.beq_iff key name),
        )
    | inr other ↦
        let (channels', changed, there, elsewhere) =
          change_at-channel_of name f channels a (rw other at h) in
        (
          (key, b) ∷ channels',
          rw (other, changed) refl,
          rw other there,
          λ n ne. ap (λ o. if key =?= n then some b else o) (elsewhere n ne),
        )
  ]

module _ {F : Type 0} where
  pub make_channel-fresh :
      (fail_fast : Bool) (s : Settings F) (queues : List String) (a : Attached F)
      → make_channel fail_fast s queues ≡ some a
      → (entries a ≡ []) × (a.filter_fn ≡ s.filter_fn)
  unfolding Channel.new Funnel.new base_of
  make_channel-fresh fail_fast s [] a made =
      let (n, accepted, here) = make_channel_plain fail_fast s a made in rw here (refl, refl)
  make_channel-fresh fail_fast s (queue ∷ queues) a made =
      rw (make_channel_funnel fail_fast s queue queues a made) (refl, refl)

  channel_of-last :
      (name : String) (a : Attached F) (channels : List (String × Attached F))
      → has_channel name channels ≡ false
      → channel_of name (channels ++ (name, a) ∷ []) ≡ some a
  unfolding channel_of has_channel
  channel_of-last name a [] h = rw ((string_eq.beq_iff name name).1 refl) refl
  channel_of-last name a ((key, b) ∷ channels) h = elim (Bool-cases (key =?= name)) [
    | inl same ↦ let wrong : true ≡ false = (rw same at h) in cc
    | inr other ↦ rw other (channel_of-last name a channels (rw other at h))
  ]

  pub attach-channel_of :
      (name : String) (s : Settings F) (board board' : Scoreboard F)
      → attach name s board ≡ some board'
      → (a : Attached F) × (make_channel board.fail_fast s s.queues ≡ some a)
        × (channel_of name board'.channels ≡ some a)
  attach-channel_of name s board board' h =
      let (unknown, (a, made, here)) = attach-some name s board board' h in
      (a, made, rw here (channel_of-last name a board.channels unknown))

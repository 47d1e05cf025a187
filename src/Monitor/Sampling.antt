-- ===== src/Monitor/Sampling.antt =====
-- forastero/monitor.py with forastero/scoreboard.py: what a monitor captures reaches the queue of its
-- channel.
use Prim.Native.String.{String}
use forastero.Prelude.{◌+◌, ◌≡◌, ◌≢◌, refl, ◌∙◌, List, [], ◌∷◌, some, Eq, string_eq, arith, length}
use forastero.Transaction.{Transaction}
use forastero.Event.{Key, star, on, publish, at, subscribe, key_eq, clear}
use forastero.Event as Emitter
use forastero.Scoreboard
use forastero.Scoreboard.{
  Scoreboard, Settings, Attached, Kind, plain, funnel, base_of, sample_kind, attach, change,
  change_at, make_channel, has_channel,
}
use forastero.Monitor.{
  Monitor, capture, sampler, event_eq, new, watch, on_capture, handle, handle_all, captures,
}
use forastero.Monitor.Channels.{
  channel_of, filtered, entries, sampled, sampled_all, sampled_all-entries, change_at-channel_of,
  make_channel-fresh, attach-channel_of,
}

module _ {F H : Type 0} ⦃e : Eq F⦄ (effect : H → Transaction F → Scoreboard F → Scoreboard F) where
  -- The monitor has the one handler.
  abbrev pub Watched : String → Monitor H → Type 0
  Watched name m = m.emitter.handlers ≡ (on capture, sampler name) ∷ []

  called_one :
      (name : String) (t : Transaction F) (m : Monitor H)
      → Watched name m
      → (on_capture t m).1.called ≡ (sampler name, capture, t) ∷ []
  unfolding on_capture publish at key_eq
  called_one name t m watched = rw watched refl

  on_capture-Watched :
      (name : String) (t : Transaction F) (m : Monitor H)
      → Watched name m
      → Watched name (on_capture t m).0 × ((on_capture t m).0.captured ≡ m.captured + 1)
  unfolding on_capture publish
  on_capture-Watched name t m watched = (watched, refl)

  sampled_board :
      (name : String) (t : Transaction F) (board board' : Scoreboard F)
      → Scoreboard.capture name t board ≡ some board'
      → handle_all effect ((sampler name, capture, t) ∷ []) board ≡ some board'
  unfolding handle_all handle
  sampled_board name t board board' h = simp (h, handle_all, handle) refl

  one_capture :
      (name : String) (t : Transaction F) (m : Monitor H) (board : Scoreboard F) (a : Attached F)
      → Watched name m
      → channel_of name board.channels ≡ some a
      → (board' : Scoreboard F) × (handle_all effect (on_capture t m).1.called board ≡ some board')
        × (channel_of name board'.channels ≡ some (sampled t a))
        × ((n : String) → n ≢ name → channel_of n board'.channels ≡ channel_of n board.channels)
  unfolding Scoreboard.capture change
  one_capture name t m board a watched there =
      let (channels', changed, now, elsewhere) =
        change_at-channel_of name (λ b. sample_kind b.filter_fn t b.kind) board.channels a there in
      (
        record board { channels = channels' },
        rw (called_one name t m watched) (sampled_board name t board _ (rw changed refl)),
        now,
        elsewhere,
      )

  captures-sampled :
      (name : String) (ts : List (Transaction F)) (m : Monitor H) (board : Scoreboard F)
      (a : Attached F)
      → Watched name m
      → channel_of name board.channels ≡ some a
      → (m' : Monitor H) × (final : Scoreboard F) × (captures effect ts (m, board)
          ≡ some (m', final))
        × (m'.captured ≡ m.captured + length ts)
        × (channel_of name final.channels ≡ some (sampled_all ts a))
        × ((n : String) → n ≢ name → channel_of n final.channels ≡ channel_of n board.channels)
  unfolding captures
  captures-sampled name [] m board a watched there =
      (m, board, refl, omega arith, there, λ n ne. refl)
  captures-sampled name (t ∷ ts) m board a watched there =
      let (board', told, now, elsewhere) = one_capture name t m board a watched there in
      let (watched', one_more) = on_capture-Watched name t m watched in
      let (m', final, ends, counted, last, others) =
        captures-sampled name ts (on_capture t m).0 board' (sampled t a) watched' now in
      (
        m',
        final,
        simp (told, captures) ends,
        omega (arith, counted, one_more),
        last,
        λ n ne. others n ne ∙ elsewhere n ne,
      )

module _ {F H : Type 0} ⦃e : Eq F⦄ (effect : H → Transaction F → Scoreboard F → Scoreboard F) where
  -- A monitor that is attached to a scoreboard, and watched by its channel alone, then captures some
  -- transactions: no call raises, each is counted once, the monitor's queue of the channel holds
  -- exactly what the channel's filter leaves of them, in their order, and every other channel is as
  -- before.
  pub captures-filtered :
      (name : String) (s : Settings F) (board board' : Scoreboard F) (m : Monitor H)
      (ts : List (Transaction F))
      → attach name s board ≡ some board'
      → watch name new ≡ some m
      → (m' : Monitor H) × (final : Scoreboard F) × (a : Attached F) × (captures effect ts
            (m, board')
          ≡ some (m', final))
        × (m'.captured ≡ length ts)
        × (channel_of name final.channels ≡ some a)
        × (entries a ≡ filtered s.filter_fn ts)
        × ((n : String) → n ≢ name → channel_of n final.channels ≡ channel_of n board'.channels)
  unfolding watch new subscribe Emitter.new
  captures-filtered name s board board' m ts attached watched =
      let (a, made, there) = attach-channel_of name s board board' attached in
      let (empty, same_filter) = make_channel-fresh board.fail_fast s s.queues a made in
      let (m', final, ends, counted, last, others) =
        captures-sampled effect name ts m board' a (cc) there in
      let none_before : m.captured ≡ 0 = cc in
      (
        m',
        final,
        sampled_all ts a,
        ends,
        omega (arith, counted, none_before),
        last,
        sampled_all-entries ts a ∙ rw (empty, same_filter) refl,
        others,
      )

-- ===== src/Scoreboard/Attach.antt =====
-- forastero/scoreboard.py, Scoreboard.attach: the channel that it makes, and what it refuses.
use Prim.Native.String.{String}
use forastero.Prelude.{
  ℕ, zero, suc, ◌<◌, ◌≡◌, ◌↔◌, ◌⊎◌, inl, inr, refl, sym, ◌∙◌, List, [], ◌∷◌, Option, none, some,
  Bool, true, false, pos, negsuc, arith, Bool-cases, Option-cases,
}
use forastero.Channel
use forastero.Channel.{GivenWindow, integer, not_an_integer, effective_window}
use forastero.Funnel
use forastero.Scoreboard.{
  Scoreboard, Settings, Attached, plain, funnel, make_channel, has_channel, attach, with_channel,
}

pub effective_window_pos :
    (window : Option GivenWindow) (n : ℕ) → effective_window window ≡ some n → 0 < n
unfolding effective_window
effective_window_pos none n h = ground arith
effective_window_pos (some (integer (pos zero))) n h = ground arith
effective_window_pos (some (integer (pos (suc m)))) n h = ground arith
effective_window_pos (some (integer (negsuc m))) n h = cc
effective_window_pos (some (not_an_integer false)) n h = ground arith
effective_window_pos (some (not_an_integer true)) n h = cc

-- A negative number, or a value that is no integer and true in a test.
abbrev pub IsBadWindow : Option GivenWindow → Type 0
IsBadWindow window =
    ((n : ℕ) × (window ≡ some (integer (negsuc n)))) ⊎ (window ≡ some (not_an_integer true))

effective_window-none :
    (window : Option GivenWindow) → effective_window window ≡ none → IsBadWindow window
unfolding effective_window
effective_window-none none h = cc
effective_window-none (some (integer (pos zero))) h = cc
effective_window-none (some (integer (pos (suc m)))) h = cc
effective_window-none (some (integer (negsuc m))) h = inl (m, refl)
effective_window-none (some (not_an_integer false)) h = cc
effective_window-none (some (not_an_integer true)) h = inr refl

none-effective_window :
    (window : Option GivenWindow) → IsBadWindow window → effective_window window ≡ none
unfolding effective_window
none-effective_window window (inl (n, h)) = rw h refl
none-effective_window window (inr h) = rw h refl

module _ {F : Type 0} where
  abbrev pub plain_channel : Bool → Settings F → ℕ → Attached F
  plain_channel fail_fast s window = record {
    config = record {
      timeout_ns = s.timeout_ns;
      drain_policy = s.drain_policy;
      match_window = window;
      fail_fast = fail_fast;
    };
    filter_fn = s.filter_fn;
    kind = plain Channel.new;
  }

  abbrev pub funnel_channel : Bool → Settings F → List String → Attached F
  funnel_channel fail_fast s queues = record {
    config = record {
      timeout_ns = s.timeout_ns;
      drain_policy = s.drain_policy;
      match_window = 1;
      fail_fast = fail_fast;
    };
    filter_fn = s.filter_fn;
    kind = funnel (Funnel.new queues);
  }

  pub make_channel_plain :
      (fail_fast : Bool) (s : Settings F) (a : Attached F)
      → make_channel fail_fast s [] ≡ some a
      → (n : ℕ) × (effective_window s.match_window ≡ some n) × (a ≡ plain_channel fail_fast s n)
  unfolding make_channel
  make_channel_plain fail_fast s a made = elim (Option-cases (effective_window s.match_window)) [
    | inl refused ↦ let wrong : none ≡ some a = (rw refused at made) in cc
    | inr (n, accepted) ↦
        let there : some (plain_channel fail_fast s n) ≡ some a = (rw accepted at made) in
        (n, accepted, cc)
  ]

  pub make_channel_funnel :
      (fail_fast : Bool) (s : Settings F) (queue : String) (queues : List String) (a : Attached F)
      → make_channel fail_fast s (queue ∷ queues) ≡ some a
      → a ≡ funnel_channel fail_fast s (queue ∷ queues)
  unfolding make_channel
  make_channel_funnel fail_fast s queue queues a made = cc

  -- A channel is refused for its window alone, which that of several queues does not have.
  pub make_channel-none_iff :
      (fail_fast : Bool) (s : Settings F) (queues : List String)
      → (make_channel fail_fast s queues ≡ none) ↔ ((queues ≡ []) × IsBadWindow s.match_window)
  unfolding make_channel
  make_channel-none_iff fail_fast s [] = (
    (λ h. elim (Option-cases (effective_window s.match_window)) [
      | inl refused ↦ (refl, effective_window-none s.match_window refused)
      | inr (n, accepted) ↦
          let wrong : some (plain_channel fail_fast s n) ≡ none = (rw accepted at h) in cc
    ]),
    λ h. rw (none-effective_window s.match_window h.1) refl,
  )
  make_channel-none_iff fail_fast s (queue ∷ queues) = ((λ h. cc), λ h. let wrong = h.0 in cc)

  -- What an attachment that does not raise has made.
  pub attach-some :
      (name : String) (s : Settings F) (board board' : Scoreboard F)
      → attach name s board ≡ some board'
      → (has_channel name board.channels ≡ false)
        × ((a : Attached F) × (make_channel board.fail_fast s s.queues ≡ some a)
            × (board' ≡ with_channel name board a))
  unfolding attach
  attach-some name s board board' h = elim (Bool-cases (has_channel name board.channels)) [
    | inl known ↦ let wrong : none ≡ some board' = (rw known at h) in cc
    | inr unknown ↦ elim (Option-cases (make_channel board.fail_fast s s.queues)) [
      | inl refused ↦ let wrong : none ≡ some board' = (rw (unknown, refused) at h) in cc
      | inr (a, made) ↦
          let there : some (with_channel name board a) ≡ some board' = (rw (unknown, made) at h) in
          (unknown, (a, made, cc))
    ]
  ]

  -- With a name that no channel has, only the channel itself can be refused.
  pub attach-none_iff :
      (name : String) (s : Settings F) (board : Scoreboard F)
      → has_channel name board.channels ≡ false
      → (attach name s board ≡ none) ↔ ((s.queues ≡ []) × IsBadWindow s.match_window)
  unfolding attach
  attach-none_iff name s board unknown =
      let made_iff = make_channel-none_iff board.fail_fast s s.queues in
      elim (Option-cases (make_channel board.fail_fast s s.queues)) [
        | inl refused ↦ ((λ h. made_iff.0 refused), λ h. rw (unknown, refused) refl)
        | inr (a, made) ↦ (
          (λ h.
              let wrong : some (with_channel name board a) ≡ none = (rw (unknown, made) at h) in
              cc),
          λ h. let wrong : some a ≡ none = sym made ∙ made_iff.1 h in cc,
        )
      ]

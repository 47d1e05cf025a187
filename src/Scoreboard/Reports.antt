-- ===== src/Scoreboard/Reports.antt =====
-- forastero/scoreboard.py, Channel.report and FunnelChannel.report: the lines of a channel's report.
-- The head of a queue stands for the table of its fields (Transaction/Tabulate.antt).
use Prim.Native.String.{String}
use forastero.Prelude.{
  ℕ, suc, ◌≡◌, ◌↔◌, refl, List, [], ◌∷◌, Option, none, some, Bool, true, false, ◌||◌, ltb, length,
  arith,
}
use forastero.Queue.{Queue}
use forastero.Channel
use forastero.Channel.{Channel}
use forastero.Channel.Drain.{monitor_depth, reference_depth}
use forastero.Funnel
use forastero.Funnel.{Funnel}

pub data Line (T : Type 0) : Type 0 where
  paired : String → ℕ → ℕ → Line T
  outstanding : String → ℕ → ℕ → Line T
  monitor_head : String → Option T → Line T
  reference_head : String → Option T → Line T
  queue_head : String → String → Option T → Line T

abbrev pub head : {T : Type 0} → List T → Option T
head [] = none
head (t ∷ ts) = some t

abbrev pub line_if : {T : Type 0} → Bool → Line T → List (Line T) → List (Line T)
line_if true line rest = line ∷ rest
line_if false line rest = rest

positive : (n : ℕ) → ltb 0 (suc n) ≡ true
positive n = ground arith

module _ {T : Type 0} where
  unfoldable pub channel_report : String → Channel T → List (Line T)
  channel_report name c =
      paired name (Channel.total c) c.mismatched
      ∷ line_if (ltb 0 (monitor_depth c) || ltb 0 (reference_depth c))
          (outstanding name (monitor_depth c) (reference_depth c))
          (line_if (ltb 0 (monitor_depth c)) (monitor_head name (head c.q_mon.entries))
            (line_if (ltb 0 (reference_depth c)) (reference_head name (head c.q_ref.entries)) []))

  -- The loop over the named queues.
  unfoldable pub queue_heads : String → List (String × Queue T) → List (Line T)
  queue_heads name [] = []
  queue_heads name ((key, q) ∷ queues) =
      line_if (ltb 0 (length q.entries)) (queue_head name key (head q.entries))
        (queue_heads name queues)

  unfoldable pub funnel_report : String → Funnel T → List (Line T)
  funnel_report name c =
      paired name (Channel.total c.base) c.base.mismatched
      ∷ line_if (ltb 0 (monitor_depth c.base) || ltb 0 (Funnel.reference_depth c))
          (outstanding name (monitor_depth c.base) (Funnel.reference_depth c))
          (line_if (ltb 0 (monitor_depth c.base)) (monitor_head name (head c.base.q_mon.entries))
            (queue_heads name c.queues))

  -- A report is the one line on the pairs exactly if the channel has no entry on either side.
  pub channel_report-quiet :
      (name : String) (c : Channel T)
      → (channel_report name c ≡ paired name (Channel.total c) c.mismatched ∷ [])
        ↔ ((c.q_mon.entries ≡ []) × (c.q_ref.entries ≡ []))
  unfolding channel_report monitor_depth reference_depth
  channel_report-quiet name c = quiet c.q_mon.entries c.q_ref.entries
    where
      quiet :
          (ms rs : List T)
          → ((paired name (Channel.total c) c.mismatched
                ∷ line_if
                    (ltb 0 (length ms) || ltb 0 (length rs))
                    (outstanding name (length ms) (length rs))
                    (line_if
                      (ltb 0 (length ms))
                      (monitor_head name (head ms))
                      (line_if (ltb 0 (length rs)) (reference_head name (head rs)) [])))
              ≡ paired name (Channel.total c) c.mismatched ∷ [])
            ↔ ((ms ≡ []) × (rs ≡ []))
      quiet [] [] = ((λ h. (refl, refl)), λ h. refl)
      quiet [] (r ∷ rs) = rw (positive (length rs)) ((λ h. cc), λ h. cc)
      quiet (m ∷ ms) rs = rw (positive (length ms)) ((λ h. cc), λ h. cc)

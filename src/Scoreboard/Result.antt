-- ===== src/Scoreboard/Result.antt =====
-- forastero/scoreboard.py, class Scoreboard: what `result` says, over any interleaving of
-- attachments, captures, expectations and turns of the loops.
use Prim.Native.String.{String}
use forastero.Prelude.{
  Option-cases, ◌+◌, ◌≡◌, ◌↔◌, inl, inr, refl, sym, ap, ◌∙◌, List, [], ◌∷◌, ◌++◌, Option, none,
  some, Bool, true, Eq, string_eq, length, All, All-append, length-append, arith,
}
use mathlib.Core.Option
use forastero.Transaction.{Transaction}
use forastero.Scoreboard.Attach.{attach-some}
use forastero.Scoreboard.{
  Scoreboard, Settings, Attached, Kind, attach, capture, push_reference, turn, new, result, base_of,
  mismatch_calls, turn_at, change,
}
use forastero.Scoreboard.Kinds.{
  AllEqual, calls-AllEqual, sample_kind-Keeps, reference_kind-Keeps, make_channel-IsReady,
}
use forastero.Scoreboard.Sound.{
  IsSound, IsSoundEntry, IsSoundIfSome, KeepsAll, channel_calls, calls_in, turn_at-IsSound,
  change_at-IsSound,
}

-- What can happen next to a scoreboard.
pub data Action (F : Type 0) : Type 0 where
  attached : String → Settings F → Action F
  captured : String → Transaction F → Action F
  expected : String → Option String → Transaction F → Action F
  turned : String → Action F

module _ {F : Type 0} ⦃e : Eq F⦄ where
  -- A call that raises leaves the scoreboard as it is.
  abbrev or_unchanged : Scoreboard F → Option (Scoreboard F) → Scoreboard F
  or_unchanged board none = board
  or_unchanged board (some board') = board'

  unfoldable pub step : Action F → Scoreboard F → Scoreboard F
  step (attached name s) board = or_unchanged board (attach name s board)
  step (captured name t) board = or_unchanged board (capture name t board)
  step (expected name queue t) board = or_unchanged board (push_reference name queue t board)
  step (turned name) board = turn name board

  unfoldable pub run : List (Action F) → Scoreboard F → Scoreboard F
  unfolding step
  run [] board = board
  run (a ∷ more) board = run more (step a board)

  calls_in-last :
      (channels : List (String × Attached F)) (entry : String × Attached F)
      → calls_in (channels ++ entry ∷ []) ≡ calls_in channels + channel_calls entry
  calls_in-last [] entry = omega arith
  calls_in-last (x ∷ channels) entry = omega (arith, calls_in-last channels entry)

  attach-IsSound :
      (name : String) (s : Settings F) (board : Scoreboard F)
      → IsSound board
      → IsSound (or_unchanged board (attach name s board))
  unfolding mismatch_calls
  attach-IsSound name s board h = elim (Option-cases (attach name s board)) [
    | inl refused ↦ rw refused h
    | inr (board', taken) ↦
        let (unknown, (a, made, here)) = attach-some name s board board' taken in
        let (ready, silent) = make_channel-IsReady board.fail_fast s s.queues a made in
        let no_calls : length (mismatch_calls name (base_of a.kind).reports) ≡ 0 =
          ap (λ reports. length (mismatch_calls name reports)) silent in
        rw (taken, here)
          (record {
            entries = All-append _ board.channels _ h.entries ((ready, rw silent tt), tt);
            counted = omega (arith, h.counted, calls_in-last board.channels (name, a), no_calls);
          })
  ]

  change-IsSound :
      (name : String) (f : Attached F → Option (Kind (Transaction F))) (board : Scoreboard F)
      → KeepsAll f
      → IsSound board
      → IsSound (or_unchanged board (change name f board))
  unfolding change
  change-IsSound name f board keeps h =
      changed _ (change_at-IsSound name f board.channels keeps h.entries)
    where
      changed :
          (o : Option (List (String × Attached F)))
          → IsSoundIfSome board.channels o
          → IsSound
              (or_unchanged board (Option.map (λ channels. record board { channels = channels }) o))
      changed none _ = h
      changed (some channels) (entries, same) = record {
        entries = entries;
        counted = h.counted ∙ sym same;
      }

  step-IsSound : (a : Action F) (board : Scoreboard F) → IsSound board → IsSound (step a board)
  unfolding step capture push_reference turn
  step-IsSound (attached name s) board h = attach-IsSound name s board h
  step-IsSound (captured name t) board h =
      change-IsSound name _ board (λ a r. sample_kind-Keeps a.config a.filter_fn t a.kind r) h
  step-IsSound (expected name queue t) board h =
      change-IsSound name _ board (λ a r. reference_kind-Keeps a.config queue t a.kind r) h
  step-IsSound (turned name) board h =
      let (entries, counted) = turn_at-IsSound name board.channels h.entries in
      record {
        entries = entries;
        counted = omega (
          arith,
          h.counted,
          counted,
          length-append board.mismatches (turn_at name board.channels).1,
        );
      }

  run-IsSound :
      (actions : List (Action F)) (board : Scoreboard F)
      → IsSound board
      → IsSound (run actions board)
  unfolding run
  run-IsSound [] board h = h
  run-IsSound (a ∷ more) board h = run-IsSound more (step a board) (step-IsSound a board h)

  abbrev pub EntryAllEqual : String × Attached F → Type 0
  EntryAllEqual (name, a) = AllEqual (base_of a.kind).reports

  calls_in-AllEqual :
      (channels : List (String × Attached F))
      → All IsSoundEntry channels
      → (calls_in channels ≡ 0) ↔ All EntryAllEqual channels
  calls_in-AllEqual [] h = ((λ _. tt), λ _. refl)
  calls_in-AllEqual ((name, a) ∷ channels) ((r, honest), hs) =
      let (fwd, bwd) = calls-AllEqual name (base_of a.kind).reports honest in
      let (fwds, bwds) = calls_in-AllEqual channels hs in
      (
        (λ n. (fwd (omega (arith, n)), fwds (omega (arith, n)))),
        λ (a, more). omega (arith, bwd a, bwds more),
      )

  -- Over any interleaving of attachments, captures, expectations and turns of the loops, of plain
  -- and of funnel channels and with calls that raise among them: `result` is true exactly when
  -- every pair that any channel has reported compares equal.
  pub run-result_iff :
      (fail_fast : Bool) (actions : List (Action F))
      → (result (run actions (new fail_fast)) ≡ true)
        ↔ All EntryAllEqual (run actions (new fail_fast)).channels
  unfolding result new
  run-result_iff fail_fast actions =
      let sound = run-IsSound actions (new fail_fast) (record { entries = tt; counted = refl }) in
      let (fwd, bwd) = calls_in-AllEqual _ sound.entries in
      (
        (λ h. fwd (ground (arith, sound.counted))),
        λ h. let none_missed = bwd h in ground (arith, sound.counted),
      )

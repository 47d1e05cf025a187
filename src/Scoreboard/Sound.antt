-- ===== src/Scoreboard/Sound.antt =====
-- forastero/scoreboard.py, class Scoreboard: its list of mismatches beside the
-- reports of its channels.
use Prim.Native.String.{String}
use forastero.Prelude.{
  ℕ, ◌+◌, ◌≡◌, inl, inr, ap, List, [], ◌∷◌, ◌++◌, Option, none, some, Eq, ◌=?=◌, string_eq, length,
  All, drop-append, All-append, arith, Bool-cases,
}
use mathlib.Core.Option
use forastero.Transaction.{Transaction}
use forastero.Channel.{Report}
use forastero.Scoreboard.{
  Scoreboard, Attached, Kind, base_of, mismatch_calls, calls_since, advance_kind, turn_at,
  change_at,
}
use forastero.Scoreboard.Kinds.{Honest, calls-append, IsReady, advance_kind-Grown, KeepsIfSome}

module _ {F : Type 0} ⦃e : Eq F⦄ where
  abbrev pub channel_calls : String × Attached F → ℕ
  channel_calls (name, a) = length (mismatch_calls name (base_of a.kind).reports)

  abbrev pub calls_in : List (String × Attached F) → ℕ
  calls_in [] = 0
  calls_in (entry ∷ channels) = channel_calls entry + calls_in channels

  abbrev pub IsSoundEntry : String × Attached F → Type 0
  IsSoundEntry (name, a) = IsReady a.config a.kind × Honest (base_of a.kind).reports

  -- Every loop can go on, its reports are honest, and each unequal one is in the list.
  pub record IsSound (board : Scoreboard F) : Type 0 where
    pub entries : All IsSoundEntry board.channels
    pub counted : length board.mismatches ≡ calls_in board.channels

  counted_since :
      (name : String) (k k' : Kind (Transaction F)) (fresh : List (Report (Transaction F)))
      → (base_of k').reports ≡ (base_of k).reports ++ fresh
      → length (mismatch_calls name (base_of k').reports)
        ≡ length (mismatch_calls name (base_of k).reports) + length (calls_since name k k')
  unfolding calls_since
  counted_since name k k' fresh told =
      rw (told, drop-append (base_of k).reports fresh) (calls-append name (base_of k).reports fresh)

  pub turn_at-IsSound :
      (name : String) (channels : List (String × Attached F))
      → All IsSoundEntry channels
      → All IsSoundEntry (turn_at name channels).0
        × (calls_in (turn_at name channels).0
            ≡ calls_in channels + length (turn_at name channels).1)
  unfolding turn_at calls_since
  turn_at-IsSound name [] h = (tt, omega arith)
  turn_at-IsSound name ((key, a) ∷ channels) ((r, honest), hs) =
      let (r', (fresh, told, new_honest)) = advance_kind-Grown a.config a.kind r in
      let (hs', counted) = turn_at-IsSound name channels hs in
      elim (Bool-cases (key =?= name)) [
        | inl same ↦ simp same (
          ((r', rw told (All-append _ _ _ honest new_honest)), hs),
          omega (arith, counted_since key a.kind (advance_kind a.config a.kind) fresh told),
        )
        | inr other ↦ simp other (((r, honest), hs'), omega (arith, counted))
      ]

  abbrev pub KeepsAll : (Attached F → Option (Kind (Transaction F))) → Type 0
  KeepsAll f = (a : Attached F) → IsReady a.config a.kind → KeepsIfSome a.config a.kind (f a)

  abbrev pub IsSoundIfSome :
      List (String × Attached F) → Option (List (String × Attached F)) → Type 0
  IsSoundIfSome channels none = Unit
  IsSoundIfSome channels (some channels') =
      All IsSoundEntry channels' × (calls_in channels' ≡ calls_in channels)

  replace_kind-IsSound :
      (key : String) (a : Attached F) (channels : List (String × Attached F))
      (o : Option (Kind (Transaction F)))
      → IsSoundEntry (key, a)
      → All IsSoundEntry channels
      → KeepsIfSome a.config a.kind o
      → IsSoundIfSome
          ((key, a) ∷ channels)
          (Option.map (λ kind. (key, record a { kind = kind }) ∷ channels) o)
  replace_kind-IsSound key a channels none h hs k = tt
  replace_kind-IsSound key a channels (some kind) (r, honest) hs (r', same) = (
    ((r', rw same honest), hs),
    ap (λ reports. length (mismatch_calls key reports) + calls_in channels) same,
  )

  IsSoundIfSome-cons :
      (entry : String × Attached F) (channels : List (String × Attached F))
      (o : Option (List (String × Attached F)))
      → IsSoundEntry entry
      → IsSoundIfSome channels o
      → IsSoundIfSome (entry ∷ channels) (Option.map (λ channels'. entry ∷ channels') o)
  IsSoundIfSome-cons entry channels none h hs = tt
  IsSoundIfSome-cons entry channels (some channels') h (hs, counted) =
      ((h, hs), omega (arith, counted))

  pub change_at-IsSound :
      (name : String) (f : Attached F → Option (Kind (Transaction F)))
      (channels : List (String × Attached F))
      → KeepsAll f
      → All IsSoundEntry channels
      → IsSoundIfSome channels (change_at name f channels)
  unfolding change_at
  change_at-IsSound name f [] keeps h = tt
  change_at-IsSound name f ((key, a) ∷ channels) keeps ((r, honest), hs) =
      elim (Bool-cases (key =?= name)) [
        | inl same ↦
            simp (same, change_at)
              (replace_kind-IsSound key a channels (f a) (r, honest) hs (keeps a r))
        | inr other ↦
            simp (other, change_at)
              (IsSoundIfSome-cons (key, a) channels _ (r, honest)
                (change_at-IsSound name f channels keeps hs))
      ]

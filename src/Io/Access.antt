-- ===== src/Io/Access.antt =====
-- forastero/io.py, class BaseIO: writing and reading the signals of an interface.
use Prim.Native.String.{String}
use mathlib.Core.Option
use forastero.Prelude.{
  ℕ, ◌≡◌, ◌≢◌, ◌⊎◌, refl, sym, ap, ◌∙◌, List, [], ◌∷◌, Option, none, some, true, false, ◌||◌, ◌&&◌,
  ◌=?=◌, string_eq, inl, inr, Bool-cases, ltb, ◌==◌, All, arith, ==_iff,
}
use forastero.Signal
use forastero.Signal.{Bits, Part, SignalWrapper, pack, total_width}
use forastero.Signal.RoundTrip.{EndsAtZero, value-set_value}
use forastero.Io.{Io, Dut, Got, flag, raw, find, is_some, has, attribute, get, set, read, write}

-- A wrapper of parts, as the constructor of SignalWrapper makes it.
abbrev pub of_parts : List Part → SignalWrapper
of_parts parts = record { packing = pack 0 parts; width = total_width 0 parts }

abbrev written : Bits → SignalWrapper → SignalWrapper
written v w = record w { packing = Signal.set_value v w.packing }

find-write :
    (sig : String) (v : Bits) (dut : Dut)
    → find sig (write sig v dut) ≡ Option.map (written v) (find sig dut)
unfolding find write
find-write sig v [] = refl
find-write sig v ((key, w) ∷ dut) = elim (Bool-cases (key =?= sig)) [
  | inl same ↦ simp (same, write, find) refl
  | inr other ↦ simp (other, write, find) (find-write sig v dut)
]

find-write_other :
    (sig sig' : String) (v : Bits) (dut : Dut)
    → sig ≢ sig'
    → find sig' (write sig v dut) ≡ find sig' dut
unfolding find write
find-write_other sig sig' v [] apart = refl
find-write_other sig sig' v ((key, w) ∷ dut) apart = elim (Bool-cases (key =?= sig)) [
  | inl same ↦
      let different : (key =?= sig') ≡ false = elim (Bool-cases (key =?= sig')) [
        | inl too ↦
            absurd (
              apart (sym ((string_eq.beq_iff key sig).0 same) ∙ (string_eq.beq_iff key sig').0 too))
        | inr not_too ↦ not_too
      ] in
      simp (same, different, write, find) refl
  | inr other ↦ elim (Bool-cases (key =?= sig')) [
    | inl found ↦ simp (other, found, write, find) refl
    | inr further ↦ simp (other, further, write, find) (find-write_other sig sig' v dut apart)
  ]
]

found_either :
    (a b : Option String) (sig : String)
    → ◌≡◌ {A = Option String} (elim a [ none ↦ b | some s ↦ some s ]) (some sig)
    → is_some b || is_some a ≡ true
found_either none none sig h = cc
found_either none (some s) sig h = refl
found_either (some s) none sig h = refl
found_either (some s) (some s') sig h = refl

module _ {V : Type 0} where
  attribute-has :
      (comp sig : String) (io : Io V) → attribute comp io ≡ some sig → has comp io ≡ true
  unfolding attribute has
  attribute-has comp sig io h =
      found_either (find comp io.responders) (find comp io.initiators) sig h

  set_lem :
      (comp sig : String) (v : Bits) (io : Io V) (dut : Dut)
      → attribute comp io ≡ some sig
      → set comp v io dut ≡ write sig v dut
  unfolding set
  set_lem comp sig v io dut h = simp (attribute-has comp sig io h, h, set) refl

  -- What a signal of a width returns when it holds the bits of `v` below its width.
  abbrev pub Holds : ℕ → Bits → Got V → Type 0
  Holds width v got =
      ((width ≡ 1) × (got ≡ flag (v 0)))
      ⊎ ((width ≢ 1) × ((bits : Bits) × (got ≡ raw bits) × ((i : ℕ) → bits i ≡ ltb i width && v i)))

  read-Holds :
      (v : Bits) (parts : List Part)
      → All EndsAtZero parts
      → Holds (total_width 0 parts) v (read (some (written v (of_parts parts))))
  unfolding read
  read-Holds v parts h = elim (Bool-cases (total_width 0 parts == 1)) [
    | inl one ↦ inl (
      (==_iff _ 1).0 one,
      simp (one, read) (ap flag (value-set_value v parts h 0 ∙ ground (arith, one))),
    )
    | inr more ↦
        inr (λ e. ground (arith, e, more), (_, simp (more, read) refl, value-set_value v parts h))
  ]

  -- Setting a component of an interface whose signal's ranges end at 0, and getting it again: a
  -- signal of width 1 gives its bit as a flag, a wider one gives the bits that were set below its
  -- width; and a component with another signal gives what it gave before.
  pub get-set :
      (comp comp' sig sig' : String) (v : Bits) (default : Option V) (io : Io V) (dut : Dut)
      (parts : List Part)
      → attribute comp io ≡ some sig
      → find sig dut ≡ some (of_parts parts)
      → All EndsAtZero parts
      → attribute comp' io ≡ some sig'
      → sig ≢ sig'
      → Holds (total_width 0 parts) v (get comp default io (set comp v io dut))
        × (get comp' default io (set comp v io dut) ≡ get comp' default io dut)
  unfolding get
  get-set comp comp' sig sig' v default io dut parts has there zero has' apart = (
    simp (has, set_lem comp sig v io dut has, get, find-write sig v dut, there)
        (read-Holds v parts zero),
    simp (has', set_lem comp sig v io dut has, get, find-write_other sig sig' v dut apart) refl,
  )

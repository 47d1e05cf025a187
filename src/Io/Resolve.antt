-- ===== src/Io/Resolve.antt =====
-- forastero/io.py, class BaseIO: which signals an interface has, and how their names are styled.
use Prim.Native.Char.{Char, char, code}
use Prim.Native.String as Native
use Prim.Native.String.{String, ◌++◌ as join}
use text.Mathlib.TextLemmas.{append_cancel_left, cons-append}
use forastero.Prelude.{
  ℕ, subst, arith, ◌≡◌, refl, sym, ap, ap₂, ◌∙◌, List, [], ◌∷◌, Option, none, some, Bool, true,
  false, ◌||◌, ◌&&◌, ◌=?=◌, string_eq, inl, inr, Bool-cases, Option-cases,
}
use forastero.Io.{
  Style, IoRole, initiator, responder, direction, io_prefix_style, Dut, find, resolve, is_some, new,
  has,
}

abbrev pub listed : String → List String → Bool
listed name [] = false
listed name (x ∷ xs) = x =?= name || listed name xs

and_false : (b : Bool) → b && false ≡ false
and_false true = refl
and_false false = refl

find-resolve :
    (dut : Dut) (styled : String → String) (comp : String) (comps : List String)
    → is_some (find comp (resolve dut styled comps))
      ≡ listed comp comps && is_some (find (styled comp) dut)
unfolding resolve find
find-resolve dut styled comp [] = refl
find-resolve dut styled comp (c ∷ comps) =
    let rest = find-resolve dut styled comp comps in
    elim (Bool-cases (c =?= comp)) [
      | inl same ↦
          let e : c ≡ comp = (string_eq.beq_iff c comp).0 same in
          elim (Option-cases (find (styled c) dut)) [
            | inl missing ↦
                let m : find (styled comp) dut ≡ none =
                  ap (λ x. find (styled x) dut) (sym e) ∙ missing in
                let r : is_some (find comp (resolve dut styled comps)) ≡ false =
                  rest
                  ∙ ap (λ o. listed comp comps && is_some o) m
                  ∙ and_false (listed comp comps) in
                simp (missing, same, m, resolve) r
            | inr (w, there) ↦
                let m : find (styled comp) dut ≡ some w =
                  ap (λ x. find (styled x) dut) (sym e) ∙ there in
                simp (there, same, m, resolve, find) refl
          ]
      | inr other ↦ elim (Option-cases (find (styled c) dut)) [
        | inl missing ↦ simp (missing, other, resolve) rest
        | inr (w, there) ↦ simp (there, other, resolve, find) rest
      ]
    ]

-- An interface has a component exactly if it is listed for one of the two roles and the design has
-- a signal of the name that the style gives it in that role.
pub has-new :
    (V : Type 0) (io_style : Style) (dut : Dut) (name : Option String) (role : IoRole)
    (init_sigs resp_sigs : List String) (comp : String)
    → has comp (new {V = V} io_style dut name role init_sigs resp_sigs)
      ≡ (listed comp init_sigs && is_some (find (io_style name comp role initiator) dut))
        || (listed comp resp_sigs && is_some (find (io_style name comp role responder) dut))
unfolding has new
has-new V io_style dut name role init_sigs resp_sigs comp =
    ap₂ (λ a b. a || b) (find-resolve dut _ comp init_sigs) (find-resolve dut _ comp resp_sigs)

first_code : String → ℕ
first_code Native.[] = 0
first_code (Native.◌∷◌ c s) = code c

first-join : (c : Char) (s t : String) → first_code (join (Native.◌∷◌ c s) t) ≡ code c
unfolding first_code
first-join c s t = ap first_code (cons-append c s t)

outwards : (s : String) → first_code (join "o" s) ≡ 111
outwards s = first-join (char 111 tt) "" s

inwards : (s : String) → first_code (join "i" s) ≡ 105
inwards s = first-join (char 105 tt) "" s

first-direction :
    (role_bus r r' : IoRole) (s s' : String)
    → join (direction role_bus r) s ≡ join (direction role_bus r') s'
    → r ≡ r'
unfolding direction
first-direction role_bus initiator initiator s s' h = refl
first-direction role_bus responder responder s s' h = refl
first-direction initiator initiator responder s s' h =
    absurd (omega (arith, ap first_code h, outwards s, inwards s'))
first-direction initiator responder initiator s s' h =
    absurd (omega (arith, ap first_code h, inwards s, outwards s'))
first-direction responder initiator responder s s' h =
    absurd (omega (arith, ap first_code h, inwards s, outwards s'))
first-direction responder responder initiator s s' h =
    absurd (omega (arith, ap first_code h, outwards s, inwards s'))

-- In the default style the components of one interface have different signals: two with the
-- same name of a signal have the same name and the same role.
pub io_prefix_style-inj :
    (bus : Option String) (role_bus r r' : IoRole) (comp comp' : String)
    → io_prefix_style bus comp role_bus r ≡ io_prefix_style bus comp' role_bus r'
    → (comp ≡ comp') × (r ≡ r')
unfolding io_prefix_style
io_prefix_style-inj none role_bus r r' comp comp' h =
    let e : r ≡ r' = first-direction role_bus r r' _ _ h in
    (
      append_cancel_left "_" comp comp' (
          append_cancel_left (direction role_bus r') _ _ (
            subst
              (λ x.
                join (direction role_bus x) (join "_" comp)
                ≡ join (direction role_bus r') (join "_" comp'))
              e h)),
      e,
    )
io_prefix_style-inj (some bus) role_bus r r' comp comp' h =
    let e : r ≡ r' = first-direction role_bus r r' _ _ h in
    let same = append_cancel_left (direction role_bus r') _ _ (
      subst
        (λ x.
          join (direction role_bus x) (join "_" (join bus (join "_" comp)))
          ≡ join (direction role_bus r') (join "_" (join bus (join "_" comp'))))
        e h) in
    (
      append_cancel_left "_" comp comp'
          (append_cancel_left bus _ _ (append_cancel_left "_" _ _ same)),
      e,
    )

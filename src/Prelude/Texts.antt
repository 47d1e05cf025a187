-- ===== src/Prelude/Texts.antt =====
-- Python strings as lists of code points, with the operations on names that the library uses. Only
-- the white space and the letters of ASCII are told apart.
use Prim.Native.Nat.{ℕ, ◌+◌}
use Prim.Native.Char.{code}
use Prim.Native.String.{String}
use Prim.Native.String as Native
use mathlib.Core.Path.{◌≡◌, refl, ap₂}
use mathlib.Core.Logic.{◌↔◌}
use mathlib.Core.Bool.{Bool, true, false, ◌||◌, ◌&&◌}
use mathlib.Core.List.{List, [], ◌∷◌, map, reverse}
use forastero.Prelude.Tests.{◌==◌, ==_iff, leb, if◌then◌else◌}
use forastero.Prelude.Interfaces.{Eq}

abbrev pub Text : Type 0
Text = List ℕ

abbrev pub text : String → Text
text Native.[] = []
text (Native.◌∷◌ c s) = code c ∷ text s

abbrev text_beq : Text → Text → Bool
text_beq [] [] = true
text_beq (x ∷ xs) (y ∷ ys) = x == y && text_beq xs ys
text_beq _ _ = false

and_split : (a b : Bool) → a && b ≡ true → (a ≡ true) × (b ≡ true)
and_split true true h = (refl, refl)
and_split true false h = cc
and_split false b h = cc

and_join : (a b : Bool) → a ≡ true → b ≡ true → a && b ≡ true
and_join true true h k = refl
and_join true false h k = cc
and_join false b h k = cc

pub text_beq_iff : (a b : Text) → (text_beq a b ≡ true) ↔ (a ≡ b)
text_beq_iff [] [] = ((λ h. refl), λ h. refl)
text_beq_iff [] (y ∷ ys) = ((λ h. cc), λ h. cc)
text_beq_iff (x ∷ xs) [] = ((λ h. cc), λ h. cc)
text_beq_iff (x ∷ xs) (y ∷ ys) =
    let (fwd, bwd) = text_beq_iff xs ys in
    (
      (λ h. let (a, b) = and_split (x == y) _ h in ap₂ (λ c s. c ∷ s) ((==_iff x y).0 a) (fwd b)),
      λ h.
          let e : x ≡ y = cc in
          let es : xs ≡ ys = cc in and_join (x == y) _ ((==_iff x y).1 e) (bwd es),
    )

instance abbrev pub text_eq : Eq Text
text_eq = record { beq = text_beq; beq_iff = text_beq_iff }

abbrev pub is_space : ℕ → Bool
is_space c = (leb 9 c && leb c 13) || (leb 28 c && leb c 32)

abbrev pub strip_left : Text → Text
strip_left [] = []
strip_left (c ∷ s) = let rest = strip_left s in if is_space c then rest else c ∷ s

abbrev pub strip : Text → Text
strip s = reverse (strip_left (reverse (strip_left s)))

abbrev pub lower : Text → Text
lower s = map (λ c. if leb 65 c && leb c 90 then c + 32 else c) s

-- `s.replace(" ", "_")`.
abbrev pub underscores : Text → Text
underscores s = map (λ c. if c == 32 then 95 else c) s

abbrev pub ends_with : Text → Text → Bool
ends_with [] t = text_beq [] t
ends_with (c ∷ s) t = text_beq (c ∷ s) t || ends_with s t

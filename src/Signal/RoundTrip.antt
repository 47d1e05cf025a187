-- ===== src/Signal/RoundTrip.antt =====
-- forastero/io.py, class SignalWrapper: writing and reading a packed signal.
use forastero.Prelude.{
  ℕ, ◌+◌, ◌-◌, ◌≤◌, ◌<◌, ◌≡◌, refl, ◌∙◌, List, [], ◌∷◌, false, ◌||◌, ◌&&◌, ltb, leb, All, arith,
  Bool-cases, inl, inr,
}
use forastero.Signal.{
  Bits, bit_or, shift_left, shift_right, low_bits, zero_bits, Part, Packed, pack, total_width,
  value, set_value, lsb_of,
}

-- The range of a part ends at 0, as that of `logic [7:0]`.
abbrev pub EndsAtZero : Part → Type 0
EndsAtZero part = lsb_of part.range part.length ≡ 0

-- A part's value fits its length.
abbrev pub Fits : Part → Type 0
Fits part = (i : ℕ) → part.length ≤ i → part.bits i ≡ false

-- The bits of `v` from `low` on and below `high`, and no others.
abbrev pub within : ℕ → ℕ → Bits → Bits
within low high v i = (leb low i && ltb i high) && v i

total_width-ge : (w : ℕ) (parts : List Part) → w ≤ total_width w parts
unfolding total_width
total_width-ge w [] = omega arith
total_width-ge w (part ∷ parts) = omega (arith, total_width-ge (w + part.length) parts)

value-set_value_from :
    (v : Bits) (w : ℕ) (parts : List Part)
    → All EndsAtZero parts
    → (i : ℕ) → value (set_value v (pack w parts)) i ≡ within w (total_width w parts) v i
unfolding value set_value pack total_width zero_bits bit_or shift_left shift_right low_bits
value-set_value_from v w [] h i = ground arith
value-set_value_from v w (part ∷ parts) (h, hs) i =
    let later = value-set_value_from v (w + part.length) parts hs i in
    let wide = total_width-ge (w + part.length) parts in
    let at : w + lsb_of part.range part.length ≡ w = omega (arith, h) in
    rw (at, later)
      (elim (Bool-cases (ltb i w)) [
        | inl below ↦ rw below (ground arith)
        | inr above ↦ let back : (i - w) + w ≡ i = ground arith in rw (above, back) (ground arith)
      ])

-- Nothing that a packing reads lies below where it begins.
value-below :
    (w : ℕ) (parts : List Part)
    → All EndsAtZero parts
    → (i : ℕ) → i < w
    → value (pack w parts) i ≡ false
unfolding value pack zero_bits bit_or shift_left
value-below w [] h i below = refl
value-below w (part ∷ parts) (h, hs) i below =
    let later = value-below (w + part.length) parts hs i (omega (arith, below)) in
    let at : w + lsb_of part.range part.length ≡ w = omega (arith, h) in
    rw (at, later) (ground arith)

-- The same parts with the same bits, one by one.
abbrev pub Same : List Packed → List Packed → Type 0
Same [] [] = Unit
Same (p ∷ ps) (q ∷ qs) = ((i : ℕ) → p.part.bits i ≡ q.part.bits i) × Same ps qs
Same _ _ = ⊥

value-cons :
    (w : ℕ) (part : Part) (parts : List Part)
    → EndsAtZero part
    → (i : ℕ) → w ≤ i
    → value (pack w (part ∷ parts)) i ≡ value (pack (w + part.length) parts) i || part.bits (i - w)
unfolding value pack bit_or shift_left
value-cons w part parts h i low =
    let at : w + lsb_of part.range part.length ≡ w = omega (arith, h) in rw at (ground arith)

set_value-Same :
    (v : Bits) (w : ℕ) (parts : List Part)
    → All EndsAtZero parts
    → All Fits parts
    → ((i : ℕ) → w ≤ i → v i ≡ value (pack w parts) i)
    → Same (set_value v (pack w parts)) (pack w parts)
unfolding value set_value pack bit_or shift_left shift_right low_bits
set_value-Same v w [] h f agrees = tt
set_value-Same v w (part ∷ parts) (h, hs) (f, fs) agrees = (
  λ i.
      let at : w + lsb_of part.range part.length ≡ w = omega (arith, h) in
      let back : (i + w) - w ≡ i = omega arith in
      let seen = agrees (i + w) (omega arith) ∙ value-cons w part parts h (i + w) (omega arith) in
      elim (Bool-cases (ltb i part.length)) [
        | inl inside ↦
            let empty = value-below (w + part.length) parts hs (i + w) (ground arith) in
            rw (at, inside, seen, empty, back) refl
        | inr outside ↦ rw (outside, f i (ground arith)) refl
      ],
  set_value-Same v (w + part.length) parts hs fs (λ i low.
      let seen = agrees i (omega (arith, low)) ∙ value-cons w part parts h i (omega (arith, low)) in
      seen ∙ rw (f (i - w) (omega (arith, low))) (ground arith)),
)

-- Writing a packed signal and reading it again, where the range of each part ends at 0: below the
-- width of the signal the bits are those that were written, and above it there are none.
pub value-set_value :
    (v : Bits) (parts : List Part)
    → All EndsAtZero parts
    → (i : ℕ) → value (set_value v (pack 0 parts)) i ≡ ltb i (total_width 0 parts) && v i
value-set_value v parts h i = value-set_value_from v 0 parts h i ∙ ground arith

-- Writing back what was read, where the range of each part ends at 0 and each part's value fits
-- its length, leaves every bit of every part as it was.
pub set_value-value :
    (parts : List Part)
    → All EndsAtZero parts
    → All Fits parts
    → Same (set_value (value (pack 0 parts)) (pack 0 parts)) (pack 0 parts)
set_value-value parts h f = set_value-Same _ 0 parts h f (λ i low. refl)

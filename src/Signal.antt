-- ===== src/Signal.antt =====
-- forastero/io.py, class SignalWrapper: a packed view of the parts of a signal.
--
-- A Python integer that is not negative is its sequence of bits, the lowest first. What cocotb keeps
-- of a part is its length, what it knows of its range, and its value.
pub mod RoundTrip
mod Examples
use forastero.Prelude.{
  ℕ, zero, suc, ◌+◌, ◌-◌, List, [], ◌∷◌, ◌++◌, Option, none, some, Bool, true, false, ◌||◌, ◌&&◌,
  if◌then◌else◌, ltb, reverse,
}

abbrev pub Bits : Type 0
Bits = ℕ → Bool

-- `a | b`, `a << n`, `a >> n`, and `a & ((1 << n) - 1)`.
unfoldable pub bit_or : Bits → Bits → Bits
bit_or a b i = a i || b i

unfoldable pub shift_left : Bits → ℕ → Bits
shift_left a n i = if ltb i n then false else a (i - n)

unfoldable pub shift_right : Bits → ℕ → Bits
shift_right a n i = a (i + n)

unfoldable pub low_bits : ℕ → Bits → Bits
low_bits n a i = ltb i n && a i

unfoldable pub zero_bits : Bits
zero_bits i = false

-- `comp.range`, with its direction, of cocotb 2; the pair `comp._range` of cocotb 1; or neither.
pub data Range : Type 0 where
  downto upto pair : ℕ → ℕ → Range
  unknown : Range

pub record Part : Type 0 where
  pub range : Range
  pub length : ℕ
  pub bits : Bits

-- `c_msb` and `c_lsb`, from a range and the length.
unfoldable pub msb_of : Range → ℕ → ℕ
msb_of (downto left right) n = left
msb_of (upto left right) n = right
msb_of (pair msb lsb) n = msb
msb_of unknown n = n - 1

unfoldable pub lsb_of : Range → ℕ → ℕ
lsb_of (downto left right) n = right
lsb_of (upto left right) n = left
lsb_of (pair msb lsb) n = lsb
lsb_of unknown n = 0

-- The hierarchy of a struct: its parts, some of them structs.
mutual
  pub data Level : Type 0 where
    leaf : Part → Level
    hierarchy : Levels → Level

  pub data Levels : Type 0 where
    no_more : Levels
    then_level : Level → Levels → Levels

unfoldable mutual
  pub expand : Level → List Part
  expand (leaf part) = part ∷ []
  expand (hierarchy levels) = expand_all levels

  pub expand_all : Levels → List Part
  expand_all no_more = []
  expand_all (then_level level levels) = expand level ++ expand_all levels

-- An entry of `_packing`; the mask is the one of the part's length.
pub record Packed : Type 0 where
  pub rel_lsb : ℕ
  pub rel_msb : ℕ
  pub part : Part

pub record SignalWrapper : Type 0 where
  pub packing : List Packed
  pub width : ℕ

-- The `for` loop of the constructor, with `self._width` so far.
unfoldable pub pack : ℕ → List Part → List Packed
pack width [] = []
pack width (part ∷ parts) =
    record {
      rel_lsb = width + lsb_of part.range part.length;
      rel_msb = width + msb_of part.range part.length;
      part = part;
    }
    ∷ pack (width + part.length) parts

unfoldable pub total_width : ℕ → List Part → ℕ
total_width width [] = width
total_width width (part ∷ parts) = total_width (width + part.length) parts

unfoldable pub wrap : Level → SignalWrapper
wrap hier = record {
  packing = pack 0 (reverse (expand hier));
  width = total_width 0 (reverse (expand hier));
}

unfoldable pub value : List Packed → Bits
value [] = zero_bits
value (p ∷ packing) = bit_or (value packing) (shift_left p.part.bits p.rel_lsb)

-- The setter of `value`.
unfoldable pub set_value : Bits → List Packed → List Packed
set_value v [] = []
set_value v (p ∷ packing) =
    record p { part = record p.part { bits = low_bits p.part.length (shift_right v p.rel_lsb) } }
    ∷ set_value v packing

-- ===== src/Signal/Examples.antt =====
-- A small packed signal, and the theorems about it at concrete inputs.
use forastero.Prelude.{ℕ, zero, suc, ◌≡◌, refl, List, [], ◌∷◌, Bool, true, false, ◌&&◌, ltb, arith}
use forastero.Signal
use forastero.Signal.{
  Bits, Part, downto, unknown, leaf, hierarchy, then_level, no_more, SignalWrapper, wrap, pack,
  total_width, value, set_value,
}
use forastero.Signal.RoundTrip.{value-set_value, set_value-value, Same, Fits}

program : Unit {0}
unfolding wrap pack total_width value set_value Signal.expand Signal.expand_all Signal.lsb_of
    Signal.msb_of Signal.bit_or Signal.shift_left Signal.shift_right Signal.low_bits
    Signal.zero_bits
program = tt

-- The bits 101 and, on a part of two bits, 10.
abbrev five : Bits
five zero = true
five (suc zero) = false
five (suc (suc zero)) = true
five (suc (suc (suc _))) = false

abbrev two : Bits
two zero = false
two (suc zero) = true
two (suc (suc _)) = false

abbrev low_part : Part
low_part = record { range = downto 2 0; length = 3; bits = five }

abbrev high_part : Part
high_part = record { range = unknown; length = 2; bits = two }

abbrev first_bits : ℕ → Bits → List Bool
first_bits zero a = []
first_bits (suc n) a = a 0 ∷ first_bits n (λ i. a (suc i))

-- The last part of the hierarchy has the lowest bits.
run_value :
    first_bits 6 (
      value
        (wrap
          (hierarchy (then_level (leaf high_part) (then_level (leaf low_part) no_more)))).packing)
    ≡ true ∷ false ∷ true ∷ false ∷ true ∷ false ∷ []
unfolding program
run_value = refl

-- A part that is declared as [7:4] has its value read above the width that is counted for it.
run_high_range :
    first_bits 6 (value (wrap (leaf (record low_part { range = downto 4 2 }))).packing)
    ≡ false ∷ false ∷ true ∷ false ∷ true ∷ false ∷ []
unfolding program
run_high_range = refl

Fits-five : Fits low_part
Fits-five zero low = ground arith
Fits-five (suc zero) low = refl
Fits-five (suc (suc zero)) low = ground arith
Fits-five (suc (suc (suc i))) low = refl

Fits-two : Fits high_part
Fits-two zero low = refl
Fits-two (suc zero) low = ground arith
Fits-two (suc (suc i)) low = refl

value-set_value_example :
    value (set_value two (pack 0 (low_part ∷ high_part ∷ []))) 1
    ≡ ltb 1 (total_width 0 (low_part ∷ high_part ∷ [])) && two 1
unfolding program
value-set_value_example = value-set_value two (low_part ∷ high_part ∷ []) (refl, (refl, tt)) 1

set_value-value_example :
    Same
      (set_value (value (pack 0 (low_part ∷ high_part ∷ []))) (pack 0 (low_part ∷ high_part ∷ [])))
      (pack 0 (low_part ∷ high_part ∷ []))
unfolding program
set_value-value_example =
    set_value-value (low_part ∷ high_part ∷ []) (refl, (refl, tt)) (Fits-five, (Fits-two, tt))

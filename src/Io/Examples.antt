-- ===== src/Io/Examples.antt =====
-- A small interface, and the theorems about it at concrete inputs.
use Prim.Native.String.{String}
use forastero.Prelude.{ℕ, suc, ◌≡◌, refl, [], ◌∷◌, none, some, true, false, string_eq}
use forastero.Signal
use forastero.Signal.{Bits, Part, downto, pack, total_width, zero_bits}
use forastero.Io
use forastero.Io.{
  Io, Dut, initiator, responder, io_prefix_style, io_suffix_style, io_plain_style, find, is_some,
  new, has, get, set, flag, a_default, width, initialise, attribute, set_default,
}
use forastero.Io.Resolve
use forastero.Io.Resolve.{listed, has-new}
use forastero.Io.Access.{of_parts, Holds, get-set}

program : Unit {0}
unfolding io_prefix_style io_suffix_style io_plain_style find new has get set width initialise
    attribute set_default Io.direction Io.bus_prefix Io.resolve Io.default_of Io.read Io.write
    Io.write_all Io.range_size Signal.pack Signal.total_width Signal.value Signal.set_value
    Signal.lsb_of Signal.msb_of Signal.bit_or Signal.shift_left Signal.shift_right Signal.low_bits
    Signal.zero_bits
program = tt

abbrev part : ℕ → Part
part n = record { range = downto n 0; length = suc n; bits = zero_bits }

abbrev all_ones : Bits
all_ones i = true

abbrev dut : Dut
dut =
    ("i_s_valid", of_parts (part 0 ∷ []))
    ∷ ("i_s_data", of_parts (part 7 ∷ []))
    ∷ ("o_s_ready", of_parts (part 0 ∷ []))
    ∷ []

abbrev io : Io ℕ
io = new io_prefix_style dut (some "s") responder ("valid" ∷ "data" ∷ "last" ∷ []) ("ready" ∷ [])

run_styles : io_suffix_style (some "dma") "awready" initiator responder ≡ "dma_awready_i"
unfolding program
run_styles = refl

run_last : has "last" io ≡ false
unfolding program
run_last = refl

run_default : get "last" none (set_default "last" 1 io) dut ≡ a_default 1
unfolding program
run_default = refl

run_flag : get "valid" none io (set "valid" all_ones io dut) ≡ flag true
unfolding program
run_flag = refl

run_width : width "data" io dut ≡ 8
unfolding program
run_width = refl

io_prefix_style-inj_example : (◌≡◌ {A = String} "data" "data") × (initiator ≡ initiator)
io_prefix_style-inj_example =
    Resolve.io_prefix_style-inj (some "s") responder initiator initiator "data" "data" refl

get-set_example :
    Holds (total_width 0 (part 7 ∷ [])) all_ones (get "data" none io (set "data" all_ones io dut))
    × (get "valid" none io (set "data" all_ones io dut) ≡ get "valid" none io dut)
unfolding program
get-set_example =
    get-set "data" "valid" "i_s_data" "i_s_valid" all_ones none io dut (part 7 ∷ []) refl refl
      (refl, tt) refl (λ h. cc)

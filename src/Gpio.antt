-- ===== src/Gpio.antt =====
-- pypga/boards/stemlab125_14/modules/gpio.py: MigenGpio, get_migen_gpio and ExampleGpio. The
-- tristate buffer of a pin (Migen's TSTriple) is a parameter: the level that its input sees, for
-- its output, its output enable and the level that something outside drives.
pub mod Levels
mod Tests
use pypga.Base.{
  ℕ, zero, suc, ◌+◌, Bool, true, false, List, [], ◌∷◌, ◌++◌, map, length, get_or, replicate,
}
use pypga.Base.Vectors.{fit}
use pypga.Dac.{range_from}

-- A buffer: o, oe and the level outside.
abbrev pub Tristate : Type 0
Tristate = Bool → Bool → Bool → Bool

-- What the output and the enable of a buffer carry.
pub record Buffer : Type 0 where
  pub oe : Bool
  pub o : Bool

-- `MigenGpio.__init__` for the levels that the pins are driven to from outside: `is_output_signal`
-- and `output_signal` have a bit for each pin.
unfoldable pub buffers : ℕ → List Bool → List Bool → List Buffer
buffers width is_output output =
    map
      (λ i. record {
        oe = get_or (fit width is_output) i false;
        o = get_or (fit width output) i false;
      })
      (range_from 0 width)

-- `input`.
unfoldable pub inputs : Tristate → List Buffer → List Bool → List Bool
inputs tristate [] pins = []
inputs tristate (b ∷ bs) [] = []
inputs tristate (b ∷ bs) (pin ∷ pins) = tristate b.o b.oe pin ∷ inputs tristate bs pins

unfoldable pub migen_gpio : Tristate → List Bool → List Bool → List Bool → List Bool
unfolding buffers inputs
migen_gpio tristate gpio_pins is_output output =
    inputs tristate (buffers (length gpio_pins) is_output output) gpio_pins

-- The pins of the connector, `exp.p` before `exp.n`.
unfoldable pub get_migen_gpio : Tristate → List Bool × List Bool → List Bool → List Bool → List Bool
unfolding migen_gpio
get_migen_gpio tristate (p, n) is_output output = migen_gpio tristate (p ++ n) is_output output

-- `ExampleGpio._setup`: the register `input`, of `width` bits.
unfoldable pub example_gpio :
    ℕ → Tristate → List Bool × List Bool → List Bool → List Bool → List Bool
example_gpio width tristate pins is_output output =
    fit width (get_migen_gpio tristate pins is_output output)

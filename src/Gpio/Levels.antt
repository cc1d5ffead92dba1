-- ===== src/Gpio/Levels.antt =====
-- What the inputs of the pins read.
use pypga.Base.{
  ℕ, zero, suc, ◌+◌, ◌<◌, ◌≡◌, ap, ◌∙◌, Bool, false, if◌then◌else◌, List, [], ◌∷◌, ◌++◌, map,
  length, get_or, arith,
}
use mathlib.Core.Path.{ap₂}
use pypga.Base.Vectors.{fit, get_or-fit}
use pypga.Dac.{range_from}
use pypga.Gpio.{Tristate, Buffer, buffers, inputs, migen_gpio, get_migen_gpio, example_gpio}

-- A buffer shows its output when that is enabled, and the level outside otherwise.
abbrev pub Drives : Tristate → Type 0
Drives tristate = (o oe pin : Bool) → tristate o oe pin ≡ (if oe then o else pin)

-- The i-th input is the buffer of the i-th pin.
inputs_from :
    (tristate : Tristate) (f : ℕ → Buffer) (k i : ℕ) (pins : List Bool)
    → i < length pins
    → get_or (inputs tristate (map f (range_from k (length pins))) pins) i false
      ≡ tristate (f (k + i)).o (f (k + i)).oe (get_or pins i false)
unfolding inputs
inputs_from tristate f k i [] h = absurd (omega arith)
inputs_from tristate f k zero (pin ∷ pins) h =
    ap (λ j. tristate (f j).o (f j).oe pin) {x = k} {y = k + 0} (omega arith)
inputs_from tristate f k (suc i) (pin ∷ pins) h =
    inputs_from tristate f (suc k) i pins (omega arith)
    ∙ ap (λ j. tristate (f j).o (f j).oe (get_or pins i false)) {x = suc k + i} {y = k + suc i}
        (omega arith)

bit-fit :
    (n i : ℕ) (bits : List Bool) → i < n → get_or (fit n bits) (0 + i) false ≡ get_or bits i false
bit-fit n i bits h =
    ap (λ j. get_or (fit n bits) j false) {x = 0 + i} {y = i} (omega arith) ∙ get_or-fit n i bits h

-- The i-th bit of the register `input` is the i-th bit of `output` where the i-th of `is_output` is
-- set, and what the pin is driven to from outside elsewhere; the pins of `exp.p` have the lowest
-- bits. The buffers are as documented, and the register has a bit for the pin, which the connector
-- has.
pub input_lem :
    (width i : ℕ) (tristate : Tristate) (p n : List Bool) (is_output output : List Bool)
    → Drives tristate
    → i < width
    → i < length (p ++ n)
    → get_or (example_gpio width tristate (p, n) is_output output) i false
      ≡ (if get_or is_output i false then get_or output i false else get_or (p ++ n) i false)
unfolding example_gpio get_migen_gpio migen_gpio buffers
input_lem width i tristate p n is_output output drives h k =
    get_or-fit width i (migen_gpio tristate (p ++ n) is_output output) h
    ∙ inputs_from tristate
        (λ j. record {
          oe = get_or (fit (length (p ++ n)) is_output) j false;
          o = get_or (fit (length (p ++ n)) output) j false;
        })
        0 i (p ++ n) k
    ∙ drives _ _ _
    ∙ ap₂ (λ oe o. if oe then o else get_or (p ++ n) i false)
        (bit-fit (length (p ++ n)) i is_output k) (bit-fit (length (p ++ n)) i output k)

-- ===== src/Gpio/Tests.antt =====
-- A connector with two pins of each kind, the second of them an output.
use pypga.Base.{◌≡◌, ◌++◌, Bool, true, false, if◌then◌else◌, List, [], ◌∷◌, get_or, refl, arith}
use pypga.Gpio.{Tristate, example_gpio}
use pypga.Gpio.Levels.{input_lem}

abbrev buffer : Tristate
buffer o oe pin = if oe then o else pin

abbrev driven : List Bool
driven = true ∷ false ∷ []

abbrev mask : List Bool
mask = false ∷ true ∷ []

input_lem_example :
    get_or (example_gpio 4 buffer (driven, driven) mask (false ∷ true ∷ [])) 1 false ≡ (
      if get_or mask 1 false
      then get_or (false ∷ true ∷ []) 1 false
      else get_or (driven ++ driven) 1 false)
input_lem_example =
    input_lem 4 1 buffer driven driven mask (false ∷ true ∷ []) (λ o oe pin. refl) (omega arith)
      (omega arith)

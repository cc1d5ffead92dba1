-- ===== src/Adc/Tests.antt =====
-- A converter of three bits on a bus of five.
use pypga.Base.{◌-◌, ◌^◌, ◌≡◌, refl, Bool, true, false, List, [], ◌∷◌}
use pypga.Base.Circuit.{run}
use pypga.Base.Int.{pos, ◌-ℤ◌}
use pypga.Base.Vectors.{unsigned, signed}
use pypga.Adc.{State, step, power_on}
use pypga.Adc.Sampling.{pins_of, codes_sampled}

abbrev five : List Bool
five = true ∷ false ∷ true ∷ []

abbrev six : List Bool
six = false ∷ true ∷ true ∷ []

codes_sampled_example :
    let t : State =
      run
        (step 3)
        ((pins_of false true five, pins_of true true six) ∷ (five, five) ∷ [])
        (power_on 3) in
    (signed t.in1 ≡ pos (2 ^ 2 - 1) -ℤ pos (unsigned five))
    × (signed t.in2 ≡ pos (2 ^ 2 - 1) -ℤ pos (unsigned six))
codes_sampled_example =
    codes_sampled 2 five six false true true true (five, five) (power_on 3) refl refl

-- ===== src/Dac/Tests.antt =====
-- A converter of three bits.
use pypga.Base.{◌-◌, ◌^◌, ◌≡◌, refl, Bool, true, false, List, [], ◌∷◌, ◌++◌}
use pypga.Base.Circuit.{run}
use pypga.Base.Int.{pos, ◌-ℤ◌}
use pypga.Base.Vectors.{unsigned, signed}
use pypga.Dac.{Halves, Pins, example_step, power_on, pins}
use pypga.Dac.Bus.{Settings, first_half, second_half, settings_played}

abbrev cell : Bool → Bool → Bool → Halves
cell d₁ d₂ true = (false, false)
cell d₁ d₂ false = (d₁, d₂)

-- 3, -3 and -1.
abbrev three : List Bool
three = true ∷ true ∷ false ∷ []

abbrev minus_three : List Bool
minus_three = true ∷ false ∷ true ∷ []

abbrev minus_one : List Bool
minus_one = true ∷ true ∷ true ∷ []

abbrev before : List Settings
before = (minus_one, three) ∷ []

settings_played_example :
    let p : Pins = pins cell 3 (
      run
        (example_step 3)
        (before ++ ((three, minus_three) ∷ (minus_one, minus_one) ∷ []))
        (power_on 3)) in
    (p.sel ≡ (true, false))
    × (pos (unsigned (first_half p.bus)) ≡ pos (2 ^ 2 - 1) -ℤ signed minus_three)
    × (pos (unsigned (second_half p.bus)) ≡ pos (2 ^ 2 - 1) -ℤ signed three)
settings_played_example =
    settings_played cell 2 before three minus_three (minus_one, minus_one) (λ d₁ d₂. refl) refl refl

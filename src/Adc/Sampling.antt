-- ===== src/Adc/Sampling.antt =====
-- What the registers of the converter show of its pins.
use pypga.Base.{ℕ, suc, ◌-◌, ◌^◌, ◌≡◌, ap, ◌∙◌, Bool, List, [], ◌∷◌, length}
use pypga.Base.Circuit.{run}
use pypga.Base.Int.{pos, ◌-ℤ◌}
use pypga.Base.Vectors.{unsigned, signed}
use pypga.Dac.{converted}
use pypga.Dac.Bus.{word_lem}
use pypga.Dac.Slope.{length-converted, converted-converted, signed-converted}
use pypga.Adc.{State, step}

-- The pins of a channel: two low bits that only converters of 16 bits use, and the code.
abbrev pub pins_of : Bool → Bool → List Bool → List Bool
pins_of low₁ low₂ code = low₁ ∷ (low₂ ∷ code)

-- The codes on the pins in a cycle are in the registers after the next one, the code k as the value
-- 2 ^ n - 1 - k, whatever the state before and the pins behind. The codes have the n + 1 bits of
-- the registers.
pub codes_sampled :
    (n : ℕ) (a b : List Bool) (l₁ l₂ l₃ l₄ : Bool) (after : List Bool × List Bool) (s : State)
    → length a ≡ suc n
    → length b ≡ suc n
    → let t : State = run (step (suc n)) ((pins_of l₁ l₂ a, pins_of l₃ l₄ b) ∷ after ∷ []) s in
      (signed t.in1 ≡ pos (2 ^ n - 1) -ℤ pos (unsigned a))
      × (signed t.in2 ≡ pos (2 ^ n - 1) -ℤ pos (unsigned b))
unfolding step
codes_sampled n a b l₁ l₂ l₃ l₄ (x, y) s h k = (
  ap signed (word_lem (suc n) a h) ∙ signed-converted n a h,
  ap signed (word_lem (suc n) b k) ∙ signed-converted n b k,
)

-- With the codes of dac.py on the pins the registers show what was set: the two conversions undo
-- each other. The settings have the n + 1 bits of the registers.
pub looped_back :
    (n : ℕ) (out1 out2 : List Bool) (l₁ l₂ l₃ l₄ : Bool) (after : List Bool × List Bool) (s : State)
    → length out1 ≡ suc n
    → length out2 ≡ suc n
    → let t : State =
        run
          (step (suc n))
          ((pins_of l₁ l₂ (converted out1), pins_of l₃ l₄ (converted out2)) ∷ after ∷ [])
          s in
      (t.in1 ≡ out1) × (t.in2 ≡ out2)
unfolding step
looped_back n out1 out2 l₁ l₂ l₃ l₄ (x, y) s h k = (
  word_lem (suc n) (converted out1) (length-converted out1 ∙ h) ∙ converted-converted out1,
  word_lem (suc n) (converted out2) (length-converted out2 ∙ k) ∙ converted-converted out2,
)

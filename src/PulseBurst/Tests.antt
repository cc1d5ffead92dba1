-- ===== src/PulseBurst/Tests.antt =====
-- The bursts of tests/unit/modules/migen/test_pulsegen.py, with shorter registers.
use pypga.Base.{ℕ, ◌≡◌, Bool, true, false, List, [], ◌∷◌, arith, replicate}
use pypga.Base.Circuit.{trace}
use pypga.PulseBurst.{Config, step, start}
use pypga.PulseBurst.Spec.{Command, outputs, shown, advance, idle, input, trace-eq-phases}

abbrev small : Config
small = record { width = 2; count_width = 2 }

abbrev mixed : List Command
mixed = (false, false) ∷ (true, false) ∷ (false, false) ∷ (true, true) ∷ (true, false) ∷ []

trace-eq-phases_example :
    trace outputs (λ i. step small (input 2 1 i)) mixed (start small 1)
    ≡ trace shown (advance 2 2 1) mixed idle
trace-eq-phases_example = trace-eq-phases small 2 1 (omega arith) (omega arith) 1 mixed

abbrev low : ℕ → List Bool
low n = replicate n false

-- ===== src/PulseGen/Tests.antt =====
-- The generators of tests/unit/modules/migen/test_pulsegen.py.
use pypga.Base.{◌≡◌, true, false, refl, none}
use pypga.Base.Int.{negsuc}
use pypga.Base.Circuit.{cycles}
use pypga.Common.{int}
use pypga.PulseGen.{Config, step, start, create}

-- `TestMigenPulseGenIntPeriod`, and `TestMigenPulseGenFirstCycleOffset`.
abbrev eager : Config
eager = record { width = 4; high_after_on = true; offset = 0 }

abbrev early : Config
early = record { width = 2; high_after_on = false; offset = 1 }

eager_pulses : (cycles 11 (step eager 8 true) (start eager 8)).out ≡ true
unfolding step start
eager_pulses = refl

-- A negative period is refused, though the docstring gives it a meaning.
negative_period : create (int (negsuc 0)) true 0 ≡ none
unfolding create
negative_period = refl

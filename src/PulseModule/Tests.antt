-- ===== src/PulseModule/Tests.antt =====
-- The default arguments.
use pypga.Base.{◌≡◌, ◌+◌, ◌%◌, ◌==◌, true, arith}
use pypga.Base.Int.{pos}
use pypga.Base.Circuit.{cycles}
use pypga.PulseGen.{step}
use pypga.PulseGen.Period.{first_phase}
use pypga.PulseModule.{Arguments, set_period, get_period, config, power_on}
use pypga.PulseModule.Cycles.{period-cycles}

abbrev defaults : Arguments
defaults = record { default_period = 8; high_after_on = true; period_width = 32 }

period-cycles_example :
    (set_period defaults (pos 8) ≡ pos 6)
    × (get_period defaults (pos 6) ≡ pos 8)
    × ((cycles 17 (step (config defaults) 6 true) (power_on defaults)).out
        ≡ ((16 + first_phase (config defaults)) % 8 == 0))
period-cycles_example = period-cycles defaults 16 (omega arith) (omega arith) (omega arith)

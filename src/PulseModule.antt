-- ===== src/PulseModule.antt =====
-- pypga/modules/pulsegen.py, PulseGen: the pulse generator of pypga/modules/migen/pulsegen.py with
-- registers for its period and its switch.
pub mod Cycles
mod Tests
use pypga.Base.{ℕ, ◌-◌, Bool, true, false, Option, none, some}
use pypga.Base.Int.{ℤ, pos, negsuc}
use pypga.Register.{Spec}
use pypga.Register.Number.{before_from_python, from_python, to_python}
use pypga.PulseGen.{Config, State, step, start}

-- The arguments of PulseGen.
pub record Arguments : Type 0 where
  pub default_period : ℕ
  pub high_after_on : Bool
  pub period_width : ℕ

-- `period`
abbrev pub period_register : Arguments → Spec
period_register a = record {
  width = a.period_width;
  offset_from_python = negsuc 1;
  signed = true;
  min = some (pos 2);
  max = none;
  from_ram = false;
  invert = false;
  bit = 0;
}

-- What an assignment to `period` writes, and what reading it gives.
unfoldable pub set_period : Arguments → ℤ → ℤ
unfolding before_from_python from_python
set_period a p = from_python (period_register a) (before_from_python (period_register a) p)

unfoldable pub get_period : Arguments → ℤ → ℤ
unfolding to_python
get_period a raw = to_python (period_register a) raw

-- `MigenPulseGen(period=self.period, on=self.on, high_after_on=high_after_on)`
abbrev pub config : Arguments → Config
config a = record { width = a.period_width; high_after_on = a.high_after_on; offset = 0 }

-- The registers at reset, with the default of the period.
unfoldable pub power_on : Arguments → State
unfolding start
power_on a = start (config a) (a.default_period - 2)

-- ===== src/PulseBurst.antt =====
-- pypga/modules/migen/pulsegen.py, class MigenPulseBurstGen: a trigger starts a burst of
-- `pulses + 1` pulses, timed by a MigenPulseGen that runs with `high_after_on=False` and
-- `first_cycle_period_offset=1`.
pub mod Spec
pub mod Timing
mod Tests
use pypga.Base.{
  ℕ, zero, suc, ◌+◌, Bool, true, false, ◌&&◌, ◌||◌, if◌then◌else◌, not, ◌==◌, Option, none, some,
}
use pypga.Base.Circuit.{wrap, wrap_sub}
use pypga.Common.{Value, get_length}
use pypga.PulseGen

-- `width` is `get_length(period)` and `count_width` is `get_length(pulses)`.
pub record Config : Type 0 where
  pub width : ℕ
  pub count_width : ℕ

abbrev pub gen_config : Config → PulseGen.Config
gen_config c = record { width = c.width; high_after_on = false; offset = 1 }

pub record State : Type 0 where
  pub out : Bool
  pub count : ℕ
  pub busy : Bool
  pub pulsegen_on : Bool
  pub gen : PulseGen.State

pub record Input : Type 0 where
  pub trigger : Bool
  pub reset : Bool
  pub pulses : ℕ
  pub period : ℕ

-- `If(trigger == 1, ...)` of the idle branch.
begin : Config → Input → State → State
begin c i s =
    if i.trigger
    then record s { busy = true; out = true; count = wrap c.count_width i.pulses }
    else s

-- The branch of a busy generator in a cycle with a pulse of the inner generator.
pulse : Config → Input → State → State
pulse c i s =
    if s.count == 0
    then if i.trigger
      then record s { out = true; count = wrap c.count_width i.pulses }
      else record s { busy = false }
    else record s { out = true; count = wrap_sub c.count_width s.count 1 }

-- One clock edge. Both generators read the state before the edge.
unfoldable pub step : Config → Input → State → State
unfolding begin pulse PulseGen.step
step c i s =
    let t : State = record s {
      out = false;
      pulsegen_on = not i.reset && (s.busy || i.trigger);
      gen = PulseGen.step (gen_config c) i.period s.pulsegen_on s.gen;
    } in
    if i.reset
    then record t { out = false; busy = false; count = 0; pulsegen_on = false }
    else if not s.busy
    then begin c i t
    else if s.gen.out
    then pulse c i t
    else t

-- The registers at reset, for the value that the period has at reset.
unfoldable pub start : Config → ℕ → State
unfolding PulseGen.start
start c period = record {
  out = false;
  count = 0;
  busy = false;
  pulsegen_on = false;
  gen = PulseGen.start (gen_config c) period;
}

-- `MigenPulseBurstGen.__init__`: `none` is the `ValueError` of the inner generator.
unfoldable pub create : Value → Value → Option (Config × State)
unfolding PulseGen.create get_length
create pulses period = elim (PulseGen.create period false 1) [
  | none ↦ none
  | some (inner, gen) ↦ some (
    record { width = inner.width; count_width = get_length pulses },
    record { out = false; count = 0; busy = false; pulsegen_on = false; gen = gen },
  )
]

-- ===== src/Awg.antt =====
-- The logic of pypga/modules/awg.py, function Awg: a burst generator counts down through the memory
-- of the array register `data`, whose values stand there in reverse order.
pub mod Playing
mod Tests
use pypga.Base.{ℕ, zero, suc, ◌-◌, Bool, true, false, ◌||◌, not, List, Option, none, some, get_or}
use pypga.Base.Circuit.{wrap}
use pypga.Memory
use pypga.PulseBurst

-- `data_depth`, the register `data` (`values` here) and the burst generator that is built for the
-- depth.
pub record Config : Type 0 where
  pub data_depth : ℕ
  pub values : Memory.Config
  pub burst : PulseBurst.Config

-- The pulse burst generator, the logic of `values`, and the address that the port of the logic to
-- the memory of `values` has registered.
pub record State : Type 0 where
  pub pulseburst : PulseBurst.State
  pub values : Memory.State
  pub pl_read_adr : ℕ

-- The trigger signal, the registers, and the CSR of `values`.
pub record Input : Type 0 where
  pub trigger : Bool
  pub software_trigger : Bool
  pub always_on : Bool
  pub sampling_period_cycles : ℕ
  pub storage : ℕ
  pub re : Bool

-- `_trigger`.
unfoldable pub any_trigger : Input → Bool
any_trigger i = i.trigger || i.software_trigger || i.always_on

abbrev pub pulseburst_input : Config → Input → PulseBurst.Input
pulseburst_input c i = record {
  trigger = any_trigger i;
  reset = false;
  pulses = c.data_depth - 1;
  period = i.sampling_period_cycles;
}

-- The logic only reads `values`.
abbrev pub values_input : Input → Memory.Input
values_input i = record { storage = i.storage; re = i.re; pl_adr = 0; pl_dat_w = 0; pl_we = false }

-- One clock edge: `data_index` is the count of the burst generator.
unfoldable pub step : Config → Input → State → State
step c i s = record {
  pulseburst = PulseBurst.step c.burst (pulseburst_input c i) s.pulseburst;
  values = Memory.step c.values (values_input i) s.values;
  pl_read_adr = wrap c.values.adr_width s.pulseburst.count;
}

-- The register is made with `reverse=True`.
unfoldable pub power_on : Config → Option (List ℕ) → ℕ → State
unfolding Memory.initial_data PulseBurst.start
power_on c initial_data period = record {
  pulseburst = PulseBurst.start c.burst period;
  values = Memory.power_on (Memory.initial_data c.data_depth true initial_data);
  pl_read_adr = 0;
}

-- `out`, `out_trigger` and `done`.
unfoldable pub out : State → ℕ
out s = get_or s.values.memory s.pl_read_adr 0

unfoldable pub out_trigger : State → Bool
out_trigger s = s.pulseburst.out

unfoldable pub done : State → Bool
done s = not s.pulseburst.busy

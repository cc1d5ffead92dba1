-- ===== src/Daq/Sampling.antt =====
-- The DAQ of pypga/modules/daq.py with its MigenPulseBurstGen: a trigger starts a burst, whose
-- pulses cut the samples into windows.
pub mod Seen
pub mod Windows
use pypga.Base.{ℕ, zero, suc, ◌+◌, ◌-◌, Bool, true, false, ◌||◌, List, [], ◌∷◌}
use pypga.Base.Circuit.{wrap_sub}
use pypga.PulseBurst
use pypga.Daq

pub record Config : Type 0 where
  pub burst : PulseBurst.Config
  pub logic : Daq.Config

pub record State : Type 0 where
  pub pulseburst : PulseBurst.State
  pub logic : Daq.State

-- The triggers, the sample and the registers of a cycle.
pub record Cycle : Type 0 where
  pub trigger : Bool
  pub software_trigger : Bool
  pub sample : ℕ
  pub length_ : ℕ
  pub sampling_period_cycles : ℕ
  pub edge_threshold : ℕ
  pub inverse_factor : ℕ
  pub reduce_mode : ℕ
  pub offset : ℕ

-- `_trigger`, and the number of pulses behind the first one, `length - 1`.
unfoldable pub any_trigger : Cycle → Bool
any_trigger i = i.trigger || i.software_trigger

abbrev pub pulseburst_input : Config → Cycle → PulseBurst.Input
pulseburst_input c i = record {
  trigger = any_trigger i;
  reset = false;
  pulses = wrap_sub c.burst.count_width i.length_ 1;
  period = i.sampling_period_cycles;
}

-- The logic sees the registers of the generator.
abbrev pub logic_input : Cycle → Bool → Bool → Daq.Input
logic_input i out burst_busy = record {
  input = i.sample;
  edge_threshold = i.edge_threshold;
  inverse_factor = i.inverse_factor;
  reduce_mode = i.reduce_mode;
  offset = i.offset;
  out = out;
  burst_busy = burst_busy;
}

-- One clock edge.
unfoldable pub step : Config → Cycle → State → State
step c i s = record {
  pulseburst = PulseBurst.step c.burst (pulseburst_input c i) s.pulseburst;
  logic = Daq.step c.logic (logic_input i s.pulseburst.out s.pulseburst.busy) s.logic;
}

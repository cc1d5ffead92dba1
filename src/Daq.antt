-- ===== src/Daq.antt =====
-- pypga/modules/daq.py, the logic `_daq` for unsigned data (`data_signed=False`): what the DAQ
-- computes from its samples. The pulses that cut the samples into windows come from a
-- MigenPulseBurstGen, and are inputs here; Sampling joins the two.
pub mod Window
pub mod Average
pub mod Ram
pub mod Sampling
mod Tests
use pypga.Base.{ℕ, zero, suc, ◌+◌, ◌*◌, ◌/◌, ◌^◌, Bool, true, false, ◌&&◌, ◌==◌, ltb, if◌then◌else◌}
use pypga.Base.Circuit.{wrap}

pub record Config : Type 0 where
  pub data_width : ℕ
  pub max_samples_in_bits : ℕ

pub record State : Type 0 where
  pub value : ℕ
  pub not_above_threshold : Bool
  pub sumvalue : ℕ
  pub oldsum : ℕ
  pub average_value : ℕ
  pub value_max : ℕ
  pub value_min : ℕ
  pub count : ℕ
  pub edge_count : ℕ
  pub busy : Bool

-- The signals of a cycle: `out` and `burst_busy` are those of the pulse generator, the others are
-- registers and the data.
pub record Input : Type 0 where
  pub input : ℕ
  pub edge_threshold : ℕ
  pub inverse_factor : ℕ
  pub reduce_mode : ℕ
  pub offset : ℕ
  pub out : Bool
  pub burst_busy : Bool

-- `Case(self.reduce_mode, ...)`
selected : Input → State → ℕ
selected i s =
    if i.reduce_mode == 0
    then s.average_value
    else if i.reduce_mode == 1
    then s.value_max
    else if i.reduce_mode == 2
    then s.value_min
    else if i.reduce_mode == 3
    then i.input
    else if i.reduce_mode == 4
    then s.edge_count
    else if i.reduce_mode == 5
    then i.offset
    else if i.reduce_mode == 6
    then s.count
    else s.value

-- A pulse starts a window with the sample of its cycle.
restart : Config → Input → State → State
restart c i s = record s {
  sumvalue = wrap (c.data_width + c.max_samples_in_bits) i.input;
  value_max = wrap c.data_width i.input;
  value_min = wrap c.data_width i.input;
  count = 0;
  edge_count = 0;
}

-- A cycle of a burst without a pulse adds its sample to the window.
accumulate : Config → Input → State → State
accumulate c i s = record s {
  sumvalue = wrap (c.data_width + c.max_samples_in_bits) (s.sumvalue + i.input);
  count = wrap c.max_samples_in_bits (s.count + 1);
  value_max = if ltb s.value_max i.input then wrap c.data_width i.input else s.value_max;
  value_min = if ltb i.input s.value_min then wrap c.data_width i.input else s.value_min;
  edge_count =
      if s.not_above_threshold && ltb i.edge_threshold i.input
      then wrap 22 (s.edge_count + 1)
      else s.edge_count;
}

window : Config → Input → State → State
unfolding restart accumulate
window c i s = if i.out then restart c i s else if i.burst_busy then accumulate c i s else s

-- One clock edge.
unfoldable pub step : Config → Input → State → State
unfolding window selected
step c i s = record (window c i s) {
  oldsum = s.sumvalue;
  not_above_threshold = ltb i.input i.edge_threshold;
  average_value = wrap c.data_width (s.oldsum * i.inverse_factor / 65536);
  busy = i.burst_busy;
  value = wrap c.data_width (selected i s);
}

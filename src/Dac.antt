-- ===== src/Dac.antt =====
-- pypga/boards/stemlab125_14/modules/dac.py: the functions Dac and ExampleDac. The double data rate
-- output cells of the FPGA (`Instance("ODDR", ...)`) are a parameter: what a cell puts out in the
-- two halves of a cycle for its inputs D1, D2 and R.
pub mod Slope
pub mod Bus
mod Tests
use pypga.Base.{
  ℕ, zero, suc, ◌+◌, ◌-◌, Bool, true, false, not, List, [], ◌∷◌, ◌++◌, map, take, drop, length,
  get_or, replicate,
}
use pypga.Base.Vectors.{fit}

-- `Cat(~x[:-1], x[-1])`
unfoldable pub converted : List Bool → List Bool
converted x = map not (take (length x - 1) x) ++ drop (length x - 1) x

-- The signals of `_dac_settings`. `dac_rst` is never assigned and stays at 0.
pub record State : Type 0 where
  pub out1 : List Bool
  pub out2 : List Bool
  pub dac_dat_a : List Bool
  pub dac_dat_b : List Bool
  pub dac_rst : Bool

-- A clock edge of the module, for the next values of its output registers.
unfoldable pub dac_settings : ℕ → List Bool → List Bool → State → State
dac_settings bits out1 out2 s = record s {
  out1 = out1;
  out2 = out2;
  dac_dat_a = fit bits (converted s.out1);
  dac_dat_b = fit bits (converted s.out2);
}

-- `_example_connectivity`: the output registers follow the settings.
unfoldable pub example_step : ℕ → List Bool × List Bool → State → State
unfolding dac_settings
example_step bits (out1_setting, out2_setting) s =
    dac_settings bits (fit bits out1_setting) (fit bits out2_setting) s

unfoldable pub power_on : ℕ → State
power_on bits = record {
  out1 = replicate bits false;
  out2 = replicate bits false;
  dac_dat_a = replicate bits false;
  dac_dat_b = replicate bits false;
  dac_rst = false;
}

-- A level in the first and in the second half of a cycle.
abbrev pub Halves : Type 0
Halves = Bool × Bool

pub record Pins : Type 0 where
  pub clk : Halves
  pub wrt : Halves
  pub sel : Halves
  pub rst : Halves
  pub bus : List Halves

-- `i, i + 1, ...`, n of them.
abbrev pub range_from : ℕ → ℕ → List ℕ
range_from i zero = []
range_from i (suc n) = i ∷ range_from (suc i) n

-- The cells, for as many data pins as the board has.
unfoldable pub pins : (Bool → Bool → Bool → Halves) → ℕ → State → Pins
pins oddr data_pins s = record {
  clk = oddr false true false;
  wrt = oddr false true false;
  sel = oddr true false s.dac_rst;
  rst = oddr s.dac_rst s.dac_rst false;
  bus =
      map (λ i. oddr (get_or s.dac_dat_b i false) (get_or s.dac_dat_a i false) s.dac_rst)
        (range_from 0 data_pins);
}

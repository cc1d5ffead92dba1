-- ===== src/Adc.antt =====
-- pypga/boards/stemlab125_14/modules/adc.py: the function Adc.
pub mod Sampling
mod Tests
use pypga.Base.{ℕ, Bool, true, false, List, [], ◌∷◌, drop, replicate}
use pypga.Base.Vectors.{fit}
use pypga.Dac.{converted}

-- The signals of `_adc_settings` and the registers.
pub record State : Type 0 where
  pub adc_dat_a : List Bool
  pub adc_dat_b : List Bool
  pub in1 : List Bool
  pub in2 : List Bool

-- One clock edge, for what the pins `data_a` and `data_b` carry. The converter of the registers is
-- the expression that pypga/boards/stemlab125_14/modules/dac.py has too.
unfoldable pub step : ℕ → List Bool × List Bool → State → State
step bits (data_a, data_b) s = record {
  adc_dat_a = fit bits (drop 2 data_a);
  adc_dat_b = fit bits (drop 2 data_b);
  in1 = fit bits (converted s.adc_dat_a);
  in2 = fit bits (converted s.adc_dat_b);
}

unfoldable pub power_on : ℕ → State
power_on bits = record {
  adc_dat_a = replicate bits false;
  adc_dat_b = replicate bits false;
  in1 = replicate bits false;
  in2 = replicate bits false;
}

-- ===== src/Spi/Tests.antt =====
-- A wrapper with four lines, the shortest data and no clock division.
use pypga.Base.{Bool, true, false, List, [], ◌∷◌, replicate}
use pypga.SpiMachine
use pypga.Spi.{Settings}

abbrev four : Settings
four = record {
  machine = record {
    data_width = 17;
    clock_div = 1;
    leading_halfcycles = 1;
    trailing_halfcycles = 0;
    idle_halfcycles = 1;
  };
  cs_width = 4;
  cs_polarity = true;
  clock_polarity = false;
  clock_phase = false;
  lsb_first = true;
}

abbrev blank : SpiMachine.Shift
blank = record { sr_current = []; sdo = false }

abbrev word : List Bool
word = true ∷ false ∷ replicate 15 true

abbrev starts : List Bool
starts = replicate 76 false

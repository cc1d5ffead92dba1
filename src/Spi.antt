-- ===== src/Spi.antt =====
-- pypga/modules/migen/spi.py, class MigenSPI: an SPIMachine behind chip-select lines with a
-- polarity.
pub mod Lines
mod Tests
use pypga.Base.{
  ℕ, zero, suc, ◌+◌, Bool, true, false, ◌&&◌, not, ◌==◌, leb, if◌then◌else◌, List, [], ◌∷◌, Option,
  none, some,
}
use pypga.SpiMachine
use pypga.SpiMachine.{Config}

-- The settings of the wrapper, and those of its machine.
pub record Settings : Type 0 where
  pub machine : Config
  pub cs_width : ℕ
  pub cs_polarity : Bool
  pub clock_polarity : Bool
  pub clock_phase : Bool
  pub lsb_first : Bool

-- `none` is the `ValueError` on short data.
unfoldable pub create : Settings → SpiMachine.Shift → Option SpiMachine.State
create s r = if leb s.machine.data_width 16 then none else some (SpiMachine.power_on r)

-- `^` on bits
abbrev pub xor : Bool → Bool → Bool
xor true b = not b
xor false b = b

-- `(Replicate(cs) & (Constant(1, cs_width) << index)) ^ Replicate(cs_polarity)`, from line i on.
lines_from : Bool → Bool → ℕ → ℕ → ℕ → List Bool
lines_from select polarity index i zero = []
lines_from select polarity index i (suc n) =
    xor (select && i == index) polarity ∷ lines_from select polarity index (i + 1) n

-- The signals of a cycle on the side of the chips.
pub record Pins : Type 0 where
  pub mosi : Bool
  pub clk : Bool
  pub cs : List Bool
  pub busy : Bool

unfoldable pub pins : Settings → ℕ → SpiMachine.State → Pins
unfolding lines_from
pins c index s = record {
  mosi = s.reg.sdo;
  clk = xor (SpiMachine.clk c.clock_phase s) c.clock_polarity;
  cs = lines_from (SpiMachine.cs s) c.cs_polarity index 0 c.cs_width;
  busy = not (SpiMachine.is_idle s);
}

-- What the machine sees. Nothing drives its `lsb_first`, which stays at 0.
unfoldable pub machine_input : Settings → Bool → List Bool → SpiMachine.Input
machine_input c start data_ = record {
  begin = start;
  clk_phase = c.clock_phase;
  lsb_first = false;
  pdo = data_;
}

unfoldable pub step : Settings → Bool → List Bool → SpiMachine.State → SpiMachine.State
unfolding machine_input
step c start data_ s = SpiMachine.step c.machine (machine_input c start data_) s

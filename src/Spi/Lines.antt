-- ===== src/Spi/Lines.antt =====
-- The chip-select lines and the bits of MigenSPI.
use pypga.Base.{
  ℕ, zero, suc, ◌+◌, ◌<◌, ◌≡◌, ◌≢◌, ap, ◌∙◌, Bool, false, ◌&&◌, ◌==◌, List, some, arith, get_elem?,
  set, replicate,
}
use pypga.SpiMachine
use pypga.SpiMachine.{idle, gen_idle}
use pypga.SpiMachine.Timing.{Setting}
use pypga.Spi.{Settings, Pins, pins, lines_from, xor}

get_elem?-lines_from :
    (select polarity : Bool) (index i n j : ℕ)
    → j < n
    → get_elem? (lines_from select polarity index i n) j
      ≡ some (xor (select && (i + j == index)) polarity)
unfolding lines_from
get_elem?-lines_from select polarity index i zero j h = absurd (omega arith)
get_elem?-lines_from select polarity index i (suc n) zero h =
    ap (λ k. some (xor (select && (k == index)) polarity)) {x = i} {y = i + 0} (omega arith)
get_elem?-lines_from select polarity index i (suc n) (suc j) h =
    get_elem?-lines_from select polarity index (i + 1) n j (omega arith)
    ∙ ap (λ k. some (xor (select && (k == index)) polarity)) {x = i + 1 + j} {y = i + suc j}
        (omega arith)

-- Only the line of the chosen chip ever leaves the level that is the polarity, and it does so just
-- while the machine selects a chip; an index beyond the lines selects none.
pub cs_lines :
    (c : Settings) (index j : ℕ) (s : SpiMachine.State)
    → j < c.cs_width
    → (j ≢ index → get_elem? (pins c index s).cs j ≡ some c.cs_polarity)
      × (j ≡ index → get_elem? (pins c index s).cs j ≡ some (xor (SpiMachine.cs s) c.cs_polarity))
unfolding pins
cs_lines c index j s h = (
  λ ne.
      get_elem?-lines_from (SpiMachine.cs s) c.cs_polarity index 0 c.cs_width j h ∙ ground (arith),
  λ e. get_elem?-lines_from (SpiMachine.cs s) c.cs_polarity index 0 c.cs_width j h ∙ ground (arith),
)

-- The transmission of the machine that the wrapper drives.
abbrev pub setting : Settings → List Bool → Setting
setting c data_ = record {
  config = c.machine;
  phase = c.clock_phase;
  lsb_first = false;
  pdo = data_;
}

-- The line of the chip of an index is at the polarity, inverted while the chip is selected, and all
-- others are at the polarity.
abbrev pub chip_lines : ℕ → Bool → ℕ → Bool → List Bool
chip_lines n polarity index selected = set (replicate n polarity) index (xor selected polarity)

-- The pins for a chip select, a clock and a bit of data that count from rest.
abbrev pub driven : Settings → ℕ → Bool × Bool × Bool → Bool × Bool × List Bool
driven c index (selected, clock, bit) =
    (bit, xor clock c.clock_polarity, chip_lines c.cs_width c.cs_polarity index selected)

-- What the chips see of a state.
abbrev pub levels : Settings → ℕ → SpiMachine.State → Bool × Bool × List Bool
levels c index s = let p : Pins = pins c index s in (p.mosi, p.clk, p.cs)

-- ===== src/SpiMachine/Tests.antt =====
-- An SPI machine with three bits and short half cycles.
use pypga.Base.{◌≡◌, refl, Bool, true, false, List, [], ◌∷◌, arith, replicate}
use pypga.Base.Circuit.{run}
use pypga.Base.Watch.{watch}
use pypga.SpiMachine.{Config, Shift, idle, gen_idle, step, power_on}
use pypga.SpiMachine.Handshake.{Sound, handshake, state}
use pypga.SpiMachine.Timing.{Setting, input, wires}
use pypga.SpiMachine.Transfer.{waveform, sent_all, transmission}

abbrev small : Config
small = record {
  data_width = 3;
  clock_div = 2;
  leading_halfcycles = 0;
  trailing_halfcycles = 1;
  idle_halfcycles = 1;
}

abbrev blank : Shift
blank = record { sr_current = false ∷ true ∷ true ∷ []; sdo = true }

abbrev word : List Bool
word = true ∷ false ∷ true ∷ []

abbrev rising : Setting
rising = record { config = small; phase = true; lsb_first = false; pdo = word }

handshake_example :
    Sound small (run (step small) (input rising true ∷ input rising false ∷ []) (power_on blank))
handshake_example =
    handshake small (input rising true ∷ input rising false ∷ []) blank (omega arith)

abbrev starts : List Bool
starts = replicate 31 true

transmission_example :
    (watch
        (wires true)
        (λ i. step small (input rising i))
        (true ∷ starts)
        (state idle 2 false gen_idle 0 blank)
      ≡ (false, false, true) ∷ waveform rising blank)
    × (run (λ i. step small (input rising i)) (true ∷ starts) (state idle 2 false gen_idle 0 blank)
        ≡ state idle 0 false gen_idle 0 (sent_all rising blank))
transmission_example = transmission rising starts 2 blank (omega arith) (omega arith) refl

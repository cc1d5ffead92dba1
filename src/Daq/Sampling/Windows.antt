-- ===== src/Daq/Sampling/Windows.antt =====
-- What the DAQ holds at the end of each window of a burst.
use pypga.Base.{◌+◌, ◌≡◌, List, length}
use pypga.Base.Circuit.{trace, wrap}
use pypga.PulseBurst
use pypga.PulseBurst.Spec.{Outputs, outputs}
use pypga.Daq
use pypga.Daq.Window.{Setting, sum, largest, least, rises}
use pypga.Daq.Sampling.{Config, State, Cycle, step}
use pypga.Daq.Sampling.Seen.{values, Window}

-- What the DAQ holds of a window.
abbrev pub Holds : Daq.Config → Setting → Window → Daq.State → Type 0
Holds c e (x, xs) t =
    (t.sumvalue ≡ wrap (c.data_width + c.max_samples_in_bits) (sum x.0 (values xs)))
    × (t.count ≡ wrap c.max_samples_in_bits (length (values xs)))
    × (t.value_max ≡ largest x.0 (values xs))
    × (t.value_min ≡ least x.0 (values xs))
    × (t.edge_count ≡ wrap 22 (rises e.edge_threshold 0 x.0 (values xs)))

-- The outputs of the generator in the cycles of a run.
abbrev pub generated : (c : Config) → List Cycle → State → List Outputs
generated c is s = trace (λ t. outputs (State.pulseburst t)) (step c) is s

-- ===== src/Daq/Tests.antt =====
-- A DAQ with four bits of data.
use pypga.Base.{ℕ, Bool, ◌+◌, ◌*◌, ◌≤◌, some, ◌≡◌, refl, true, false, List, [], ◌∷◌, arith}
use pypga.Daq.{Config, State, Input, step}
use pypga.Daq.Average.{sampling_period_factor, step-average_value}
use pypga.Daq.Ram
use pypga.PulseBurst
use pypga.Daq.Sampling
use pypga.Daq.Sampling.Seen
use pypga.Daq.Ram.{samples_stored}
use pypga.Daq.Window.{Setting, rises}

abbrev small : Config
small = record { data_width = 4; max_samples_in_bits = 2 }

abbrev blank : State
blank = record {
  value = 0;
  not_above_threshold = false;
  sumvalue = 3;
  oldsum = 0;
  average_value = 0;
  value_max = 9;
  value_min = 0;
  count = 1;
  edge_count = 5;
  busy = false;
}

abbrev setting : Setting
setting = record { edge_threshold = 6; inverse_factor = 100; reduce_mode = 4; offset = 0 }

abbrev later : List ℕ
later = 9 ∷ 5 ∷ 6 ∷ 7 ∷ 2 ∷ 8 ∷ []

-- The rise from 5 over 6 to 7 is not counted.
two_rises : rises 6 0 1 later ≡ 2
two_rises = refl

-- The port of index 1: the first pulse has the count 3, and the port is ready for its word only.
abbrev source : Bool → ℕ → ℕ → Bool → Ram.Source
source p k x r = record { pulse = p; pulse_count = k; sample = x; aw_ready = r; w_ready = true }

abbrev sources : List Ram.Source
sources = source true 3 4 true ∷ source true 2 6 false ∷ source false 1 8 true ∷ []

second_base : Ram.base_address 167772160 1 ≡ some 176160768
unfolding Ram.base_address
second_base = refl

one_address : Ram.sample_addresses 1 false 0 sources ≡ 176160784 ∷ []
one_address = refl

samples_stored_example :
    (Ram.addresses_stored 176160768 sources Ram.power_on ≡ Ram.sample_addresses 1 false 0 sources)
    × (Ram.words_stored 176160768 sources Ram.power_on ≡ Ram.samples false sources)
samples_stored_example = samples_stored 1 176160768 sources second_base (ground arith)

abbrev two_windows : Sampling.Config
two_windows = record { burst = record { width = 2; count_width = 2 }; logic = small }

abbrev quiet : ℕ → Seen.Sample
quiet x = (x, false, false)

abbrev first_window : Seen.Window
first_window = (quiet 3, quiet 9 ∷ quiet 2 ∷ [])

abbrev second_window : Seen.Window
second_window = (quiet 5, quiet 8 ∷ quiet 7 ∷ [])

-- The burst is the cycle of the trigger, and five more.
abbrev burst_samples : List Seen.Sample
burst_samples = quiet 3 ∷ quiet 9 ∷ (2, true, false) ∷ quiet 5 ∷ quiet 8 ∷ []

-- A window of 10 cycles whose samples sum up to 995.
abbrev averaging : Input
averaging = record {
  input = 1;
  edge_threshold = 0;
  inverse_factor = 6553;
  reduce_mode = 0;
  offset = 0;
  out = false;
  burst_busy = true;
}

abbrev eight_bits : Config
eight_bits = record { data_width = 8; max_samples_in_bits = 20 }

ten_cycles : 6553 ≡ sampling_period_factor 10
unfolding sampling_period_factor
ten_cycles = refl

step-average_value_example :
    let a : ℕ = (step eight_bits averaging (record blank { oldsum = 995 })).average_value in
    (a * 10 ≤ 995) × (65536 * 995 ≤ 65536 * ((a + 1) * 10) + 995 * 10)
step-average_value_example =
    step-average_value eight_bits averaging (record blank { oldsum = 995 }) 10 (omega arith)
      ten_cycles (omega arith)

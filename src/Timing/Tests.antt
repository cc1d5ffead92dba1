-- ===== src/Timing/Tests.antt =====
-- Logs of Vivado.
use pypga.Base.{◌≡◌, refl, true, false, [], ◌∷◌, ◌++◌}
use pypga.Timing.{timing_met, message}

timing_met_of_indented :
    timing_met (b'x' ∷ 13 ∷ 10 ∷ 32 ∷ 9 ∷ (message ++ (32 ∷ 13 ∷ 10 ∷ b'y' ∷ []))) ≡ true
unfolding timing_met
timing_met_of_indented = refl

timing_met_of_longer : timing_met (10 ∷ (message ++ (b'!' ∷ []))) ≡ false
unfolding timing_met
timing_met_of_longer = refl

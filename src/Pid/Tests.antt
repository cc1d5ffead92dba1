-- ===== src/Pid/Tests.antt =====
-- A controller of four bits.
use pypga.Base.{◌≡◌, refl, arith}
use pypga.Base.Int.{pos, negsuc, ◌+ℤ◌, ◌-ℤ◌}
use pypga.Pid.{Input, State, ◌*ℤ◌, step, wrap_signed, low_bits}
use pypga.Pid.Exact.{Bounded, step-exact}

abbrev some_input : Input
some_input = record { input = pos 5; setpoint = negsuc 2; k_p = pos 3; k_i = negsuc 0 }

abbrev some_state : State
some_state = record {
  error = negsuc 14;
  prop = pos 40;
  int = pos 3;
  int_sum = negsuc 9;
  sum = pos 9;
  out = pos 0;
}

-- The output of a large sum is not saturated: 9 becomes -7.
wraps_around : (step 4 some_input some_state).out ≡ negsuc 6
unfolding step wrap_signed low_bits
wraps_around = refl

step-exact_example :
    let t : State = step 4 some_input some_state in
    (t.error ≡ pos 5 -ℤ negsuc 2)
    × (t.prop ≡ negsuc 14 *ℤ pos 3)
    × (t.int ≡ negsuc 14 *ℤ negsuc 0)
    × (t.sum ≡ pos 40 +ℤ negsuc 9)
    × Bounded 4 t
step-exact_example =
    step-exact 4 some_input some_state (omega arith) (ground arith) (ground arith) (ground arith)
      (ground arith) (ground arith)

-- ===== src/Counter/Tests.antt =====
-- Counters of tests/integration/stemlab-125-14/test_counter.py, with smaller numbers.
use pypga.Base.{ℕ, ◌+◌, ◌*◌, ◌^◌, ◌≤◌, ◌≡◌, ◌==◌, true, false, refl, arith}
use pypga.Base.Circuit.{cycles}
use pypga.Counter.{Config, up, down, State, count, carry, done, step, counter_config}
use pypga.Counter.Counting.{counting, stops_up}

abbrev upward : Config
upward = record { width = 8; direction = up; stoppable = true }

abbrev downward : Config
downward = record { width = 8; direction = down; stoppable = true }

abbrev free : Config
free = record { width = 8; direction = up; stoppable = false }

abbrev holding : ℕ → State
holding n = record { count_with_carry = n }

stops_up_example :
    let at = λ (n : ℕ). cycles n (step upward (counting 5 17 4)) (holding 5) in
    ((n : ℕ)
      → n ≤ 3
      → (count upward (at n) ≡ 5 + n * 4)
        × (carry upward (at n) ≡ false)
        × (done upward 17 (at n) ≡ (n == 3)))
    × ((m : ℕ) → at (m + 3) ≡ at 3)
stops_up_example =
    stops_up upward 5 17 4 3 refl (omega arith) (holding 5) refl (omega arith) (omega arith)

-- A register of 8 bits that is full, and one more step.
full_count : count (counter_config up false) (holding 255) + 1 ≡ 2 ^ 8
unfolding count counter_config
full_count = refl

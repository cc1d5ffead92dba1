-- ===== src/PulseModule/Cycles.antt =====
-- The period that Python sets and the cycles between two pulses.
use pypga.Base.{◌≡◌, ◌∙◌, ap, ℕ, suc, ◌+◌, ◌-◌, ◌%◌, ◌^◌, ◌≤◌, ◌<◌, ◌==◌, true, arith}
use pypga.Base.Int.{pos, ◌+ℤ◌, ◌-ℤ◌}
use pypga.Base.Circuit.{cycles, two-pow-pred, two-pow-pos}
use pypga.Register.Number.{before_from_python, from_python}
use pypga.PulseGen.{step}
use pypga.PulseGen.Period.{out-cycles, first_phase}
use pypga.PulseModule.{Arguments, period_register, set_period, get_period, config, power_on}

-- The minimum of the register leaves such a period alone, and the offset goes into the raw value.
above_minimum :
    (a : Arguments) (p : ℕ) → 2 ≤ p → before_from_python (period_register a) (pos p) ≡ pos p
unfolding before_from_python
above_minimum a p l = ground arith

raw_period :
    (a : Arguments) (p : ℕ)
    → 1 ≤ a.period_width
    → 2 ≤ p
    → p < 2 ^ (a.period_width - 1)
    → from_python (period_register a) (pos p) ≡ pos (p - 2)
unfolding from_python ◌+ℤ◌
raw_period a p w l h =
    ground (arith, two-pow-pred a.period_width w, two-pow-pos (a.period_width - 1))

read_period :
    (a : Arguments) (p : ℕ)
    → 2 ≤ p
    → p < 2 ^ (a.period_width - 1)
    → get_period a (pos (p - 2)) ≡ pos p
unfolding get_period ◌-ℤ◌
read_period a p l h = ground (arith, two-pow-pos (a.period_width - 1))

-- From its reset state, with the period that Python reads as p and with the switch on, the module
-- puts out a pulse every p cycles: after n + 1 cycles if n, or n + 1 without `high_after_on`, is a
-- multiple of p. An assignment of p writes the raw value of that period, and reading it gives p.
-- The period is 2 or more and less than half of what its width holds.
pub period-cycles :
    (a : Arguments) (n : ℕ)
    → 1 ≤ a.period_width
    → 2 ≤ a.default_period
    → a.default_period < 2 ^ (a.period_width - 1)
    → let raw : ℕ = a.default_period - 2 in
      (set_period a (pos a.default_period) ≡ pos raw)
      × (get_period a (pos raw) ≡ pos a.default_period)
      × ((cycles (suc n) (step (config a) raw true) (power_on a)).out
          ≡ ((n + first_phase (config a)) % a.default_period == 0))
unfolding set_period power_on
period-cycles a n w l h =
    let raw : ℕ = a.default_period - 2 in
    (
      ap (from_python (period_register a)) (above_minimum a a.default_period l)
          ∙ raw_period a a.default_period w l h,
      read_period a a.default_period l h,
      (out-cycles (config a) raw (omega (arith, two-pow-pred a.period_width w)) n (omega arith)).1
          ∙ ap (λ m. (n + first_phase (config a)) % m == 0) {x = raw + 2} {y = a.default_period}
              (omega arith),
    )

-- ===== src/Daq/Average.antt =====
-- The division of the DAQ: `_daq` multiplies the sum of a window by a factor and drops 16 bits. The
-- factor is set with the sampling period, by `_DAQ.sampling_period`; the number of cycles is read
-- back from its register, so that it is at least 2.
use pypga.Base.{◌≡◌, ap, ℕ, zero, suc, ◌+◌, ◌-◌, ◌*◌, ◌/◌, ◌^◌, ◌≤◌, ◌<◌, arith}
use pypga.Base.Circuit.{wrap, two-pow-pos}
use native.Mathlib.Nat.{
  div-mul-le_self, lt-div-mul-add, mul-le-mul_right, lt_of_mul-lt-mul_right, mod-eq_of_lt,
}
use pypga.Daq.{Config, State, Input, step}

-- `int(2**16 / self.sampling_period_cycles)`
unfoldable pub sampling_period_factor : ℕ → ℕ
sampling_period_factor cycles = 65536 / cycles

-- The quotient from above.
quotient-le : (s n f a : ℕ) → f * n ≤ 65536 → a * 65536 ≤ s * f → a * n ≤ s
quotient-le s n f a h k =
    let x : a * 65536 * n ≤ s * f * n = mul-le-mul_right n k in
    let y : f * n * s ≤ 65536 * s = mul-le-mul_right s h in omega arith

-- And from below.
quotient-gt :
    (s n f a : ℕ)
    → 65536 < f * n + n
    → s * f < a * 65536 + 65536
    → 65536 * s ≤ 65536 * ((a + 1) * n) + s * n
quotient-gt s n f a h k =
    let x : s * f * n ≤ (a * 65536 + 65536) * n = mul-le-mul_right n (omega arith) in
    let y : 65536 * s ≤ (f * n + n) * s = mul-le-mul_right s (omega arith) in omega arith

quotient-lt : (a n p : ℕ) → 1 ≤ n → 0 < p → a * n ≤ n * (p - 1) → a < p
quotient-lt a n zero h k b = absurd (omega arith)
quotient-lt a n (suc q) h k b =
    let c : n * (suc q - 1) ≡ n * q = ap (λ (x : ℕ). n * x) {x = suc q - 1} {y = q} (omega arith) in
    lt_of_mul-lt-mul_right n (omega arith)

-- When the factor is that of n cycles and the sum is not larger than that of n samples, the average
-- is computed without a wrap. It is never above the sum divided by n, and below it by at most 1
-- and the sum divided by 65536.
pub step-average_value :
    (c : Config) (i : Input) (s : State) (n : ℕ)
    → 1 ≤ n
    → i.inverse_factor ≡ sampling_period_factor n
    → s.oldsum ≤ n * (2 ^ c.data_width - 1)
    → let a : ℕ = (step c i s).average_value in
      (a * n ≤ s.oldsum) × (65536 * s.oldsum ≤ 65536 * ((a + 1) * n) + s.oldsum * n)
unfolding step sampling_period_factor
step-average_value c i s n h e b =
    let f : ℕ = 65536 / n in
    let a : ℕ = s.oldsum * f / 65536 in
    let low : a * n ≤ s.oldsum =
      quotient-le s.oldsum n f a (div-mul-le_self 65536 n) (div-mul-le_self (s.oldsum * f) 65536) in
    let high : 65536 * s.oldsum ≤ 65536 * ((a + 1) * n) + s.oldsum * n =
      quotient-gt s.oldsum n f a (lt-div-mul-add (omega arith)) (lt-div-mul-add (omega arith)) in
    let exact : wrap c.data_width a ≡ a =
      mod-eq_of_lt
        (quotient-lt a n (2 ^ c.data_width) h (two-pow-pos c.data_width) (omega arith)) in
    rw (e, exact) (low, high)

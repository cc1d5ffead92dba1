-- ===== src/Pid.antt =====
-- pypga/modules/migen/pid.py, class MigenPid: a pipeline of signed registers.
pub mod Exact
mod Tests
use pypga.Base.{ℕ, zero, suc, ◌+◌, ◌-◌, ◌*◌, ◌%◌, ◌^◌, ltb, if◌then◌else◌}
use pypga.Base.Int.{ℤ, pos, negsuc, sub_ℕ, ◌+ℤ◌, ◌-ℤ◌}

-- The negative of a number.
abbrev pub neg : ℕ → ℤ
neg zero = pos 0
neg (suc n) = negsuc n

infixl 70 ◌*ℤ◌
unfoldable pub ◌*ℤ◌ : ℤ → ℤ → ℤ
pos a *ℤ pos b = pos (a * b)
pos a *ℤ negsuc b = neg (a * suc b)
negsuc a *ℤ pos b = neg (suc a * b)
negsuc a *ℤ negsuc b = pos (suc a * suc b)

-- The lowest bits of an integer, as a number.
unfoldable pub low_bits : ℕ → ℤ → ℕ
low_bits w (pos n) = n % 2 ^ w
low_bits w (negsuc n) = 2 ^ w - 1 - n % 2 ^ w

-- What a signal `Signal(bits_sign=(w, True))` holds after the assignment of an integer.
unfoldable pub wrap_signed : ℕ → ℤ → ℤ
unfolding low_bits
wrap_signed w z =
    if ltb (low_bits w z) (2 ^ (w - 1)) then pos (low_bits w z) else sub_ℕ (low_bits w z) (2 ^ w)

pub record Input : Type 0 where
  pub input : ℤ
  pub setpoint : ℤ
  pub k_p : ℤ
  pub k_i : ℤ

pub record State : Type 0 where
  pub error : ℤ
  pub prop : ℤ
  pub int : ℤ
  pub int_sum : ℤ
  pub sum : ℤ
  pub out : ℤ

-- `input_signal` and so on.
abbrev pub signals : ℕ → Input → Input
signals width i = record {
  input = wrap_signed width i.input;
  setpoint = wrap_signed width i.setpoint;
  k_p = wrap_signed width i.k_p;
  k_i = wrap_signed width i.k_i;
}

-- One clock edge; `out` takes the lowest bits of the sum.
unfoldable pub step : ℕ → Input → State → State
unfolding wrap_signed ◌+ℤ◌ ◌-ℤ◌ ◌*ℤ◌
step width i s =
    let j : Input = signals width i in
    record {
      error = wrap_signed (width + 1) (j.input -ℤ j.setpoint);
      prop = wrap_signed (2 * width + 1) (s.error *ℤ j.k_p);
      int = wrap_signed (2 * width + 1) (s.error *ℤ j.k_i);
      int_sum = wrap_signed (2 * width + 1) (s.int_sum +ℤ s.int);
      sum = wrap_signed (2 * width + 2) (s.prop +ℤ s.int_sum);
      out = wrap_signed width s.sum;
    }

abbrev pub power_on : State
power_on = record {
  error = pos 0;
  prop = pos 0;
  int = pos 0;
  int_sum = pos 0;
  sum = pos 0;
  out = pos 0;
}

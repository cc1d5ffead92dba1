-- ===== src/Counter.antt =====
-- pypga/modules/migen/counter.py, class MigenCounter, and the register view that
-- pypga/modules/counter.py puts round it.
pub mod Counting
pub mod Carry
mod Tests
use pypga.Base.{ℕ, suc, ◌+◌, ◌%◌, ◌/◌, ◌^◌, Bool, ◌&&◌, not, if◌then◌else◌, ◌==◌}
use pypga.Base.Circuit.{wrap, wrap_sub}

pub data Direction : Type 0 where
  up down : Direction

-- The arguments that are fixed at build time; `stoppable` says that `stop` is not `None`.
pub record Config : Type 0 where
  pub width : ℕ
  pub direction : Direction
  pub stoppable : Bool

pub record Input : Type 0 where
  pub start : ℕ
  pub stop : ℕ
  pub step_size : ℕ
  pub reset : Bool
  pub on : Bool

-- `count_with_carry`, of width + 1 bits, is the only register.
pub record State : Type 0 where
  pub count_with_carry : ℕ

-- `count` is all but the top bit, and `carry` is the top bit.
unfoldable pub count : Config → State → ℕ
count c s = s.count_with_carry % 2 ^ c.width

unfoldable pub carry : Config → State → Bool
carry c s = s.count_with_carry / 2 ^ c.width % 2 == 1

unfoldable pub done : Config → ℕ → State → Bool
unfolding count
done c stop s = c.stoppable && (count c s == stop)

-- The next value of an enabled counter; a step below zero sets the carry as a borrow.
next_count : Config → ℕ → State → ℕ
unfolding count
next_count c size s = elim c.direction [
  | up ↦ wrap (suc c.width) (count c s + size)
  | down ↦ wrap_sub (suc c.width) (count c s) size
]

unfoldable pub step : Config → Input → State → State
unfolding done next_count
step c i s =
    if i.reset
    then record { count_with_carry = wrap (suc c.width) i.start }
    else if not (done c i.stop s) && i.on
    then record { count_with_carry = next_count c i.step_size s }
    else s

-- The state at reset, for the value of `start` at reset.
unfoldable pub create : Config → ℕ → State
create c initial = record { count_with_carry = wrap (suc c.width) initial }

-- `Counter(width)` leaves the width of its MigenCounter at the default of 32 bits, and shows the
-- count in a register of `width` bits.
unfoldable pub counter_config : Direction → Bool → Config
counter_config direction stoppable = record {
  width = 32;
  direction = direction;
  stoppable = stoppable;
}

unfoldable pub count_register : ℕ → Config → State → ℕ
unfolding count
count_register width c s = wrap width (count c s)

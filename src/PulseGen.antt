-- ===== src/PulseGen.antt =====
-- pypga/modules/migen/pulsegen.py, class MigenPulseGen: a down counter with a borrow bit that
-- emits a pulse each time that it passes zero.
pub mod Period
mod Tests
use pypga.Base.{
  ℕ, zero, suc, ◌-◌, ◌^◌, Bool, true, false, ◌&&◌, ◌||◌, if◌then◌else◌, not, Option, none, some,
}
use pypga.Base.Int.{pos, pos_part, ltb_ℤ}
use pypga.Common.{Value, get_length, get_reset_value}
use pypga.Base.Circuit.{wrap, wrap_sub}

-- The arguments of the constructor that are fixed at build time. `offset` is
-- `first_cycle_period_offset`, and `width` is `get_length(period)`.
pub record Config : Type 0 where
  pub width : ℕ
  pub high_after_on : Bool
  pub offset : ℕ

pub record State : Type 0 where
  pub out : Bool
  pub carry : Bool
  pub restart : Bool
  pub count : ℕ

-- `Cat(count, carry).eq(Cat(count, 0) - 1)`: the borrow goes into `carry`.
borrow : ℕ → State → State
borrow w s = elim s.count [
  | zero ↦ record s { carry = true; count = 2 ^ w - 1 }
  | suc k ↦ record s { carry = false; count = k }
]

-- One clock edge, with the inputs `period` and `on` of the cycle.
unfoldable pub step : Config → ℕ → Bool → State → State
unfolding borrow
step c period on s =
    let t = record s { out = s.carry && on } in
    if not on
    then record t { carry = c.high_after_on; count = wrap_sub c.width period c.offset }
    else if s.carry || s.restart
    then record t { carry = false; count = wrap c.width period }
    else borrow c.width t

-- The registers at reset, for the value that the period has at reset.
unfoldable pub start : Config → ℕ → State
start c period = record {
  out = false;
  carry = c.high_after_on;
  restart = false;
  count = wrap_sub c.width period c.offset;
}

-- `MigenPulseGen.__init__`: `none` is the `ValueError` of a negative period.
unfoldable pub create : Value → Bool → ℕ → Option (Config × State)
unfolding start get_length get_reset_value
create period high_after_on offset =
    let c : Config = record {
      width = get_length period;
      high_after_on = high_after_on;
      offset = offset;
    } in
    if ltb_ℤ (get_reset_value period) (pos 0)
    then none
    else some (c, start c (pos_part (get_reset_value period)))

-- ===== src/Register.antt =====
-- pypga/core/register.py: how Python values become the raw values of registers, and back. The
-- children follow the classes: Raw is `_Register`, Boolean `_BoolRegister`, Number
-- `_NumberRegister`.
pub mod Raw
pub mod Boolean
pub mod Number
mod Tests
use pypga.Base.{ℕ, ◌^◌, Bool, Option}
use pypga.Base.Int.{ℤ, pos}

-- The class attributes that a conversion reads. `min` and `max` are `None` by default; `from_ram`
-- says that `ram_offset` is not `None`.
pub record Spec : Type 0 where
  pub width : ℕ
  pub offset_from_python : ℤ
  pub signed : Bool
  pub min : Option ℤ
  pub max : Option ℤ
  pub from_ram : Bool
  pub invert : Bool
  pub bit : ℕ

-- 1 << w
abbrev pub shifted : ℕ → ℤ
shifted w = pos (2 ^ w)

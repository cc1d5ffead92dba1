-- ===== src/Register/Number.antt =====
-- `_NumberRegister.to_python`, `before_from_python` and `from_python`, at integers.
pub mod RoundTrip
use pypga.Base.{
  ℕ, suc, ◌+◌, ◌-◌, ◌%◌, ◌^◌, ◌≤◌, ◌<◌, ◌≡◌, Bool, true, false, ◌&&◌, not, arith, Option, none,
  some, if◌then◌else◌,
}
use pypga.Base.Int.{ℤ, pos, negsuc, ◌+ℤ◌, ◌-ℤ◌, ◌≤ℤ◌, ◌<ℤ◌, ltb_ℤ, leb_ℤ, int_laws}
use pypga.Register.{Spec, shifted}
use pypga.Register.Raw

-- `_int_max` and `_int_min`
unfoldable pub int_max : Spec → ℤ
int_max r = if r.signed then pos (2 ^ (r.width - 1) - 1) else pos (2 ^ r.width - 1)

unfoldable pub int_min : Spec → ℤ
int_min r = if r.signed then negsuc (2 ^ (r.width - 1) - 1) else pos 0

-- A value from the RAM comes in 32 bits, whatever the width of the register.
unfoldable pub to_python : Spec → ℤ → ℤ
unfolding Raw.to_python
to_python r value =
    let v = Raw.to_python r value in
    let width = if r.from_ram then 32 else r.width in
    if r.signed && leb_ℤ (shifted (width - 1)) v then v -ℤ shifted width else v

pub above_max : Option ℤ → ℤ → Bool
above_max none v = false
above_max (some m) v = ltb_ℤ m v

pub below_min : Option ℤ → ℤ → Bool
below_min none v = false
below_min (some m) v = ltb_ℤ v m

pub or_value : Option ℤ → ℤ → ℤ
or_value none v = v
or_value (some m) v = m

unfoldable pub before_from_python : Spec → ℤ → ℤ
unfolding above_max below_min or_value
before_from_python r v =
    if above_max r.max v
    then or_value r.max v
    else if below_min r.min v
    then or_value r.min v
    else v

-- Saturation to the range of the type.
pub clip : Spec → ℤ → ℤ
unfolding int_min int_max
clip r v = if ltb_ℤ v (int_min r) then int_min r else if ltb_ℤ (int_max r) v then int_max r else v

-- Two's complement of a negative value of a signed register.
pub complement : Spec → ℤ → ℤ
complement r v = if r.signed && ltb_ℤ v (pos 0) then v +ℤ shifted r.width else v

unfoldable pub from_python : Spec → ℤ → ℤ
unfolding clip complement Raw.from_python
from_python r v = Raw.from_python r (complement r (clip r v))

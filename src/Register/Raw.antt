-- ===== src/Register/Raw.antt =====
-- `_Register.to_python` and `_Register.from_python`.
use pypga.Base.{ℕ, ◌%◌, ◌^◌, ◌≡◌, arith, if◌then◌else◌}
use pypga.Base.Int.{ℤ, pos, pos_part, ◌+ℤ◌, ◌-ℤ◌, ◌≤ℤ◌, ◌<ℤ◌, ltb_ℤ, leb_ℤ, +ℤ_cancel}
use pypga.Register.{Spec, shifted}
use native.Mathlib.Nat.{mod_self}

unfoldable pub to_python : Spec → ℤ → ℤ
to_python r value = value -ℤ r.offset_from_python

-- The range check, whose upper end is 1 << width.
saturate : ℕ → ℤ → ℤ
saturate width value =
    if ltb_ℤ value (pos 0)
    then pos 0
    else if leb_ℤ (shifted width) value
    then shifted width
    else value

unfoldable pub from_python : Spec → ℤ → ℤ
unfolding saturate
from_python r value = saturate r.width (value +ℤ r.offset_from_python)

-- What the hardware register keeps of a raw value that is written to it: its low bits.
abbrev pub stored : ℕ → ℤ → ℕ
stored width value = pos_part value % 2 ^ width

-- A value whose raw value is in range is read back as it was written.
pub raw_in_range :
    (r : Spec) (v : ℤ)
    → pos 0 ≤ℤ v +ℤ r.offset_from_python
    → v +ℤ r.offset_from_python <ℤ shifted r.width
    → (from_python r v ≡ v +ℤ r.offset_from_python) × (to_python r (from_python r v) ≡ v)
unfolding from_python to_python
raw_in_range r v low high = ground (arith, +ℤ_cancel v r.offset_from_python)

-- Above the range the raw value is 1 << width, of which the register stores nothing but zeros: a
-- value that is too large reads back like the smallest one.
pub raw_above :
    (r : Spec) (v : ℤ)
    → shifted r.width ≤ℤ v +ℤ r.offset_from_python
    → (from_python r v ≡ shifted r.width) × (stored r.width (from_python r v) ≡ 0)
unfolding from_python
raw_above r v high = ground (arith, mod_self (2 ^ r.width))

-- ===== src/Register/Boolean.antt =====
-- `_BoolRegister.to_python` and `_BoolRegister.from_python`.
use pypga.Base.{ℕ, ◌/◌, ◌%◌, ◌^◌, ◌≡◌, Bool, not, arith, ◌==◌, if◌then◌else◌}
use native.Mathlib.Nat.{div_self, zero-div}
use pypga.Base.Circuit.{two-pow-pos}
use pypga.Base.Int.{ℤ, pos, negsuc, ◌+ℤ◌, ◌≤ℤ◌, ◌<ℤ◌}
use pypga.Register.{Spec, shifted}
use pypga.Register.Raw

-- `bool((value >> bit) & 0x1)`; Python's shift of a negative integer rounds down.
bit_of : ℤ → ℕ → Bool
bit_of (pos n) bit = n / 2 ^ bit % 2 == 1
bit_of (negsuc n) bit = n / 2 ^ bit % 2 == 0

unfoldable pub to_python : Spec → ℤ → Bool
unfolding bit_of Raw.to_python
to_python r value = let b = bit_of (Raw.to_python r value) r.bit in if r.invert then not b else b

unfoldable pub from_python : Spec → Bool → ℤ
unfolding Raw.from_python
from_python r value =
    let b = if r.invert then not value else value in
    Raw.from_python r (pos (if b then 2 ^ r.bit else 0))

-- The bit that is written for a Boolean.
abbrev pub level : Spec → Bool → Bool
level r b = if r.invert then not b else b

-- A Boolean comes back as it was written, if the raw value of its level fits the register.
pub to_python-from_python_bool :
    (r : Spec) (b : Bool)
    → pos 0 ≤ℤ pos (if level r b then 2 ^ r.bit else 0) +ℤ r.offset_from_python
    → pos (if level r b then 2 ^ r.bit else 0) +ℤ r.offset_from_python <ℤ shifted r.width
    → to_python r (from_python r b) ≡ b
unfolding to_python from_python
to_python-from_python_bool r b low high =
    rw (Raw.raw_in_range r (pos (if level r b then 2 ^ r.bit else 0)) low high).1 (
      ground (
        arith,
        two-pow-pos r.bit,
        div_self {n = 2 ^ r.bit} (two-pow-pos r.bit),
        zero-div (2 ^ r.bit),
      ))

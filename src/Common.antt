-- ===== src/Common.antt =====
-- pypga/core/common.py: the helpers by which the modules size their signals.
pub mod Bits
mod Tests
use pypga.Base.{
  ℕ, zero, suc, ◌/◌, ◌-◌, Bool, if◌then◌else◌, ltb, leb, Option, none, some, List, [], ◌∷◌, length,
  ◌==◌,
}
use pypga.Base.Int.{ℤ, pos, negsuc, pos_part, neg_part, ltb_ℤ}

-- `Union[Signal, Constant, int]`, by what the helpers read of it: the width and the reset value of
-- a signal, the width and the value of a constant.
pub data Value : Type 0 where
  signal : ℕ → ℤ → Value
  constant : ℕ → ℤ → Value
  int : ℤ → Value

-- Python's `int.bit_length`, by halving; `n` rounds are enough for `n`.
bit_length_loop : ℕ → ℕ → ℕ
bit_length_loop zero n = 0
bit_length_loop (suc fuel) n =
    let rest = bit_length_loop fuel (n / 2) in if n == 0 then 0 else suc rest

unfoldable pub bit_length : ℕ → ℕ
unfolding bit_length_loop
bit_length n = bit_length_loop n n

abbrev pub magnitude : ℤ → ℕ
magnitude (pos n) = n
magnitude (negsuc n) = suc n

at_least_one : ℕ → ℕ
at_least_one n = if ltb n 1 then 1 else n

unfoldable pub get_length : Value → ℕ
unfolding bit_length at_least_one
get_length (signal width reset) = at_least_one width
get_length (constant width value) = at_least_one width
get_length (int value) = at_least_one (bit_length (magnitude value))

unfoldable pub get_reset_value : Value → ℤ
get_reset_value (signal width reset) = reset
get_reset_value (constant width value) = value
get_reset_value (int value) = value

-- `min(data)` and `max(data)` raise on an empty list.
abbrev pub minimum : ℤ → List ℤ → ℤ
minimum m [] = m
minimum m (x ∷ xs) = minimum (if ltb_ℤ x m then x else m) xs

abbrev pub maximum : ℤ → List ℤ → ℤ
maximum m [] = m
maximum m (x ∷ xs) = maximum (if ltb_ℤ m x then x else m) xs

-- `none` is the `ValueError` of an empty list, or the failed assertion on a negative entry.
inferred_width : List ℤ → Option ℕ
unfolding bit_length
inferred_width [] = none
inferred_width (x ∷ xs) =
    if ltb_ℤ (minimum x xs) (pos 0) then none else some (bit_length (magnitude (maximum x xs)))

unfoldable pub get_width_and_depth : List ℤ → Option ℕ → Option (ℕ × ℕ)
unfolding inferred_width
get_width_and_depth data_ (some width) = some (width, length data_)
get_width_and_depth data_ none = elim (inferred_width data_) [
  | none ↦ none
  | some width ↦ some (width, length data_)
]

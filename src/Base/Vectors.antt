-- ===== src/Base/Vectors.antt =====
-- Signals bit by bit, the lowest bit first, and the numbers that they stand for.
use Prim.Native.Nat.{ℕ, zero, suc, ◌+◌, ◌*◌, ◌^◌, ◌<◌}
use mathlib.Core.Path.{◌≡◌, refl, ap}
use native.Mathlib.Omega.{arith}
use mathlib.Core.List.{List, [], ◌∷◌}
use mathlib.Core.Bool.{Bool, true, false}
use pypga.Base.Circuit.{to_ℕ}
use pypga.Base.Lists.{length, get_or}
use pypga.Base.Int.{ℤ, pos, sub_ℕ}

-- The bits of a signal that is assigned to one of n bits.
abbrev pub fit : ℕ → List Bool → List Bool
fit zero bits = []
fit (suc n) [] = false ∷ fit n []
fit (suc n) (b ∷ bits) = b ∷ fit n bits

abbrev pub unsigned : List Bool → ℕ
unsigned [] = 0
unsigned (b ∷ bits) = to_ℕ b + 2 * unsigned bits

abbrev pub highest : List Bool → Bool
highest [] = false
highest (b ∷ []) = b
highest (b ∷ (c ∷ bits)) = highest (c ∷ bits)

-- Two's complement.
abbrev pub signed : List Bool → ℤ
signed bits = elim (highest bits) [
  | true ↦ sub_ℕ (unsigned bits) (2 ^ length bits)
  | false ↦ pos (unsigned bits)
]

pub length-fit : (n : ℕ) (bits : List Bool) → length (fit n bits) ≡ n
length-fit zero bits = refl
length-fit (suc n) [] = ap suc (length-fit n [])
length-fit (suc n) (b ∷ bits) = ap suc (length-fit n bits)

pub fit-whole : (n : ℕ) (bits : List Bool) → length bits ≡ n → fit n bits ≡ bits
fit-whole zero [] e = refl
fit-whole zero (b ∷ bits) e = absurd (omega arith)
fit-whole (suc n) [] e = absurd (omega arith)
fit-whole (suc n) (b ∷ bits) e = ap (λ l. b ∷ l) (fit-whole n bits (omega arith))

pub get_or-fit :
    (n i : ℕ) (bits : List Bool) → i < n → get_or (fit n bits) i false ≡ get_or bits i false
get_or-fit zero i bits h = absurd (omega arith)
get_or-fit (suc n) zero [] h = refl
get_or-fit (suc n) (suc i) [] h = get_or-fit n i [] (omega arith)
get_or-fit (suc n) zero (b ∷ bits) h = refl
get_or-fit (suc n) (suc i) (b ∷ bits) h = get_or-fit n i bits (omega arith)

-- ===== src/Base/Masks.antt =====
-- The operators `&` and `|` on numbers whose digits do not meet, and on masks.
use Prim.Native.Nat.{
  ℕ, zero, suc, ◌+◌, ◌-◌, ◌*◌, ◌/◌, ◌%◌, ◌^◌, ◌≤◌, ◌<◌, min, max, bit_and, bit_or, digits,
  bit_and-bitwise, bit_or-bitwise,
}
use mathlib.Core.Path.{◌≡◌, refl, sym, ap, ◌∙◌}
use native.Mathlib.Omega.{arith}
use native.Mathlib.Nat.{two-pow-succ, mul-add}
use pypga.Base.Circuit.{two-pow-pos}

-- A digitwise operation: f on two digits, and z on what is left when the first number has none.
module _ (z : ℕ → ℕ) (f : ℕ → ℕ → ℕ) where
  spare_digit : (n a b : ℕ) → a ≤ n → digits z f (suc n) a b ≡ digits z f n a b
  spare_digit (suc n) (suc a) b enough =
      ap (λ d. d * 2 + f (suc a % 2) (b % 2)) (spare_digit n (suc a / 2) (b / 2) (omega arith))
  spare_digit (suc n) zero b enough = refl
  spare_digit zero (suc a) b enough = absurd (omega arith)
  spare_digit zero zero b enough = refl

  spare_digits : (k a b : ℕ) → digits z f (a + k) a b ≡ digits z f a a b
  spare_digits zero a b = ap (λ n. digits z f n a b) {x = a + 0} {y = a} (omega arith)
  spare_digits (suc k) a b =
      ap (λ n. digits z f n a b) {x = a + suc k} {y = suc (a + k)} (omega arith)
      ∙ spare_digit (a + k) a b (omega arith)
      ∙ spare_digits k a b

  -- The lowest digit, and the operation on the others.
  lowest_digit :
      (a b : ℕ)
      → digits z f (suc a) (suc a) b
        ≡ digits z f (suc a / 2) (suc a / 2) (b / 2) * 2 + f (suc a % 2) (b % 2)
  lowest_digit a b =
      ap (λ d. d * 2 + f (suc a % 2) (b % 2))
        (ap (λ n. digits z f n (suc a / 2) (b / 2)) {x = a} {y = suc a / 2 + (a - suc a / 2)}
            (omega arith)
          ∙ spare_digits (a - suc a / 2) (suc a / 2) (b / 2))

nothing_or : (b : ℕ) → bit_or 0 b ≡ b
nothing_or b = bit_or-bitwise 0 b

nothing_and : (b : ℕ) → bit_and 0 b ≡ 0
nothing_and b = bit_and-bitwise 0 b

bit_or_step : (a b : ℕ) → bit_or a b ≡ bit_or (a / 2) (b / 2) * 2 + max (a % 2) (b % 2)
bit_or_step (suc a) b =
    bit_or-bitwise (suc a) b
    ∙ lowest_digit (λ x. x) max a b
    ∙ ap (λ d. d * 2 + max (suc a % 2) (b % 2)) (sym (bit_or-bitwise (suc a / 2) (b / 2)))
bit_or_step zero b = omega (arith, nothing_or b, nothing_or (b / 2))

bit_and_step : (a b : ℕ) → bit_and a b ≡ bit_and (a / 2) (b / 2) * 2 + min (a % 2) (b % 2)
bit_and_step (suc a) b =
    bit_and-bitwise (suc a) b
    ∙ lowest_digit (λ x. 0) min a b
    ∙ ap (λ d. d * 2 + min (suc a % 2) (b % 2)) (sym (bit_and-bitwise (suc a / 2) (b / 2)))
bit_and_step zero b = omega (arith, nothing_and b, nothing_and (b / 2))

or_nothing : (n a : ℕ) → a ≤ n → bit_or a 0 ≡ a
or_nothing (suc n) (suc a) h =
    bit_or_step (suc a) 0 ∙ omega (arith, or_nothing n (suc a / 2) (omega arith))
or_nothing zero (suc a) h = absurd (omega arith)
or_nothing n zero h = nothing_or 0

or_double : (y l : ℕ) → bit_or y (l / 2) ≡ y + l / 2 → bit_or (y * 2) l ≡ y * 2 + l
or_double y l e = omega (
  arith,
  bit_or_step (y * 2) l,
  ap (λ x. bit_or x (l / 2)) {x = y * 2 / 2} {y = y} (omega arith),
  e,
)

and_double : (m a : ℕ) → bit_and m (a / 2) ≡ a / 2 → bit_and (m * 2 + 1) a ≡ a
and_double m a e = omega (
  arith,
  bit_and_step (m * 2 + 1) a,
  ap (λ x. bit_and x (a / 2)) {x = (m * 2 + 1) / 2} {y = m} (omega arith),
  e,
)

doubled : (n h : ℕ) → h * 2 ^ suc n ≡ h * 2 ^ n * 2
doubled n h = rw (two-pow-succ n, mul-add) (omega arith)

-- A number under n zeros and one of n digits add up.
pub bit_or_disjoint : (n h l : ℕ) → l < 2 ^ n → bit_or (h * 2 ^ n) l ≡ h * 2 ^ n + l
bit_or_disjoint zero h l p =
    ap (bit_or (h * 1)) {x = l} {y = 0} (omega arith)
    ∙ or_nothing (h * 1) (h * 1) (omega arith)
    ∙ omega arith
bit_or_disjoint (suc n) h l p =
    rw (doubled n h)
      (or_double (h * 2 ^ n) l (bit_or_disjoint n h (l / 2) (omega (arith, two-pow-succ n))))

-- A mask of n ones keeps a number of n digits.
pub bit_and_mask : (n a : ℕ) → a < 2 ^ n → bit_and (2 ^ n - 1) a ≡ a
bit_and_mask zero a p = nothing_and a ∙ omega arith
bit_and_mask (suc n) a p =
    ap (λ m. bit_and m a) {x = 2 ^ suc n - 1} {y = (2 ^ n - 1) * 2 + 1}
      (omega (arith, two-pow-succ n, two-pow-pos n))
    ∙ and_double (2 ^ n - 1) a (bit_and_mask n (a / 2) (omega (arith, two-pow-succ n)))

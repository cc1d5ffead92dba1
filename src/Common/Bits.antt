-- ===== src/Common/Bits.antt =====
-- The lengths that common.py computes are long enough, and no longer than needed.
use native.Mathlib.Nat.{two-pow-succ}
use pypga.Base.{
  ℕ, zero, suc, ◌*◌, ◌/◌, ◌^◌, ◌≤◌, ◌<◌, ◌≡◌, refl, inl, inr, arith, ◌==◌, Bool-cases, List, [],
  ◌∷◌, some, none, length, All, Option, Option-cases, ◌⊎◌, if◌then◌else◌,
}
use pypga.Base.Int.{ℤ, pos, ◌≤ℤ◌, ◌<ℤ◌, ltb_ℤ}
use pypga.Common.{
  int, magnitude, bit_length_loop, bit_length, get_length, minimum, maximum, get_width_and_depth,
  inferred_width,
}

pow_loop_zero : (fuel : ℕ) → 2 ^ bit_length_loop fuel 0 ≡ 1
unfolding bit_length_loop
pow_loop_zero zero = refl
pow_loop_zero (suc fuel) = refl

-- The power of two that the loop computes, in the terms of its clauses.
loop_step :
    (fuel n : ℕ) → 0 < n → 2 ^ bit_length_loop (suc fuel) n ≡ 2 * 2 ^ bit_length_loop fuel (n / 2)
unfolding bit_length_loop
loop_step fuel n h = elim (Bool-cases (n == 0)) [
  | inl z ↦ absurd (ground arith)
  | inr p ↦ rw (p, two-pow-succ) (omega arith)
]

loop_bounds :
    (fuel n : ℕ)
    → n ≤ fuel
    → (n < 2 ^ bit_length_loop fuel n) × (0 < n → 2 ^ bit_length_loop fuel n ≤ 2 * n)
loop_bounds fuel zero h = (omega (arith, pow_loop_zero fuel), λ p. omega arith)
loop_bounds zero (suc n) h = absurd (omega arith)
loop_bounds (suc fuel) (suc zero) h = omega (arith, loop_step fuel 1, pow_loop_zero fuel)
loop_bounds (suc fuel) (suc (suc n)) h =
    let (above, below) = loop_bounds fuel (suc (suc n) / 2) (omega arith) in
    omega (arith, loop_step fuel (suc (suc n)), above, below (omega arith))

pub bit_length_bounds : (n : ℕ) → (n < 2 ^ bit_length n) × (0 < n → 2 ^ bit_length n ≤ 2 * n)
unfolding bit_length
bit_length_bounds n = loop_bounds n n (omega arith)

length_pos : (n : ℕ) → 1 ≤ bit_length (suc n)
unfolding bit_length bit_length_loop
length_pos n = ground arith

-- The length of a plain integer n ≥ 0 is at least 1, it has room for n, and one bit less has not,
-- unless n is 0.
pub get_length_tight :
    (n : ℕ)
    → (1 ≤ get_length (int (pos n)))
      × (n < 2 ^ get_length (int (pos n)))
      × (0 < n → 2 ^ get_length (int (pos n)) ≤ 2 * n)
unfolding get_length
get_length_tight zero = (omega arith, omega arith, λ p. omega arith)
get_length_tight (suc n) = ground (arith, bit_length_bounds (suc n), length_pos n)

minimum_bounds : (lo m : ℤ) (xs : List ℤ) → lo ≤ℤ minimum m xs → (lo ≤ℤ m) × All (λ x. lo ≤ℤ x) xs
minimum_bounds lo m [] h = (h, tt)
minimum_bounds lo m (x ∷ xs) h =
    let (least, rest) = minimum_bounds lo (if ltb_ℤ x m then x else m) xs h in
    (ground arith, (ground arith, rest))

maximum_bounds : (hi m : ℤ) (xs : List ℤ) → maximum m xs ≤ℤ hi → (m ≤ℤ hi) × All (λ x. x ≤ℤ hi) xs
maximum_bounds hi m [] h = (h, tt)
maximum_bounds hi m (x ∷ xs) h =
    let (most, rest) = maximum_bounds hi (if ltb_ℤ m x then x else m) xs h in
    (ground arith, (ground arith, rest))

-- An entry that `w` unsigned bits hold.
abbrev pub Fits : ℕ → ℤ → Type 0
Fits w x = (pos 0 ≤ℤ x) × (x <ℤ pos (2 ^ w))

All-Fits :
    (w : ℕ) (lo hi : ℤ) (xs : List ℤ)
    → pos 0 ≤ℤ lo
    → hi <ℤ pos (2 ^ w)
    → All (λ x. lo ≤ℤ x) xs
    → All (λ x. x ≤ℤ hi) xs
    → All (Fits w) xs
All-Fits w lo hi [] l h a b = tt
All-Fits w lo hi (x ∷ xs) l h a b = ((omega arith, omega arith), All-Fits w lo hi xs l h a.1 b.1)

inferred_width-Fits : (w : ℕ) (data_ : List ℤ) → inferred_width data_ ≡ some w → All (Fits w) data_
unfolding inferred_width
inferred_width-Fits w [] e = cc
inferred_width-Fits w (x ∷ xs) e =
    All-Fits w (minimum x xs) (maximum x xs) (x ∷ xs) low top lows highs
  where
    lows : All (λ y. minimum x xs ≤ℤ y) (x ∷ xs)
    lows = minimum_bounds (minimum x xs) x xs (omega arith)

    highs : All (λ y. y ≤ℤ maximum x xs) (x ∷ xs)
    highs = maximum_bounds (maximum x xs) x xs (omega arith)

    low : pos 0 ≤ℤ minimum x xs
    low = ground arith

    top : maximum x xs <ℤ pos (2 ^ w)
    top = ground (arith, bit_length_bounds (magnitude (maximum x xs)), lows.0, highs.0)

-- The width and depth of a memory for `data_`: the depth is the number of entries, a given width is
-- kept, and an inferred width has room for every entry, none of which is negative.
pub get_width_and_depth-Fits :
    (data_ : List ℤ) (given : Option ℕ) (w d : ℕ)
    → get_width_and_depth data_ given ≡ some (w, d)
    → (d ≡ length data_) × ((given ≡ some w) ⊎ All (Fits w) data_)
unfolding get_width_and_depth
get_width_and_depth-Fits data_ (some width) w d e = ground arith
get_width_and_depth-Fits data_ none w d e = elim (Option-cases (inferred_width data_)) [
  | inl missing ↦ ground arith
  | inr (v, found) ↦ (ground arith, inr (inferred_width-Fits w data_ (ground arith)))
]

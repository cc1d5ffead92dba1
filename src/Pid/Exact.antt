-- ===== src/Pid/Exact.antt =====
-- Which registers of the controller can wrap around.
use pypga.Base.{ℕ, zero, suc, ◌+◌, ◌-◌, ◌*◌, ◌^◌, ◌≤◌, ◌<◌, ◌≡◌, refl, sym, ap, ◌∙◌, arith}
use mathlib.Core.Path.{ap₂}
use native.Mathlib.Nat.{mul-add, mul-le-mul, mod-eq_of_lt, mod-lt, two-pow-succ}
use pypga.Base.Circuit.{two-pow-pos, two-pow-pred}
use pypga.Base.Int.{ℤ, pos, negsuc, ◌+ℤ◌, ◌-ℤ◌, pos_part, neg_part}
use pypga.Pid.{Input, State, neg, ◌*ℤ◌, low_bits, wrap_signed, step}

-- The values of a signed signal of w bits.
abbrev pub Fits : ℕ → ℤ → Type 0
Fits w z = (pos_part z < 2 ^ (w - 1)) × (neg_part z ≤ 2 ^ (w - 1))

abbrev magnitude : ℤ → ℕ
magnitude z = pos_part z + neg_part z

-- A value that fits is stored as it is.
wrap_signed-Fits : (w : ℕ) (z : ℤ) → 1 ≤ w → Fits w z → wrap_signed w z ≡ z
unfolding wrap_signed low_bits
wrap_signed-Fits w (pos n) h fits =
    ground
      (arith, two-pow-pred w h, mod-eq_of_lt {n = n} {m = 2 ^ w} (omega (arith, two-pow-pred w h)))
wrap_signed-Fits w (negsuc n) h fits =
    ground
      (arith, two-pow-pred w h, mod-eq_of_lt {n = n} {m = 2 ^ w} (omega (arith, two-pow-pred w h)))

-- Whatever is stored fits.
Fits-wrap_signed : (w : ℕ) (z : ℤ) → 1 ≤ w → Fits w (wrap_signed w z)
unfolding wrap_signed low_bits
Fits-wrap_signed w (pos n) h = ground (arith, two-pow-pred w h, mod-lt n (two-pow-pos w))
Fits-wrap_signed w (negsuc n) h = ground (arith, two-pow-pred w h, mod-lt n (two-pow-pos w))

magnitude-Fits : (w : ℕ) (z : ℤ) → magnitude z < 2 ^ (w - 1) → Fits w z
magnitude-Fits w z h = (omega arith, omega arith)

magnitude-sub :
    (w : ℕ) (a b : ℤ) → Fits w a → Fits w b → magnitude (a -ℤ b) < 2 ^ (w - 1) + 2 ^ (w - 1)
unfolding ◌-ℤ◌
magnitude-sub w (pos a) (pos b) h k = ground arith
magnitude-sub w (pos a) (negsuc b) h k = ground arith
magnitude-sub w (negsuc a) (pos b) h k = ground arith
magnitude-sub w (negsuc a) (negsuc b) h k = ground arith

magnitude-neg : (n : ℕ) → magnitude (neg n) ≡ n
magnitude-neg zero = refl
magnitude-neg (suc n) = omega arith

magnitude-pos : (n : ℕ) → magnitude (pos n) ≡ n
magnitude-pos n = omega arith

magnitude-mul : (a b : ℤ) → magnitude (a *ℤ b) ≡ magnitude a * magnitude b
unfolding ◌*ℤ◌
magnitude-mul (pos a) (pos b) =
    magnitude-pos (a * b) ∙ sym (ap₂ ◌*◌ (magnitude-pos a) (magnitude-pos b))
magnitude-mul (pos a) (negsuc b) =
    magnitude-neg (a * suc b) ∙ sym (ap₂ ◌*◌ (magnitude-pos a) (magnitude-neg (suc b)))
magnitude-mul (negsuc a) (pos b) =
    magnitude-neg (suc a * b) ∙ sym (ap₂ ◌*◌ (magnitude-neg (suc a)) (magnitude-pos b))
magnitude-mul (negsuc a) (negsuc b) =
    magnitude-pos (suc a * suc b) ∙ sym (ap₂ ◌*◌ (magnitude-neg (suc a)) (magnitude-neg (suc b)))

two-pow-add : (w v : ℕ) → 2 ^ w * 2 ^ v ≡ 2 ^ (w + v)
two-pow-add w zero = omega (arith, ap (λ k. 2 ^ k) {x = w + 0} {y = w} (omega arith))
two-pow-add w (suc v) =
    rw (two-pow-succ v, mul-add (2 ^ w) (2 ^ v) (2 ^ v))
      (omega (
        arith,
        two-pow-add w v,
        ap (λ k. 2 ^ k) {x = w + suc v} {y = suc (w + v)} (omega arith),
        two-pow-succ (w + v),
      ))

Fits-bound : (w : ℕ) (z : ℤ) → Fits w z → magnitude z ≤ 2 ^ (w - 1)
Fits-bound w (pos n) h = omega arith
Fits-bound w (negsuc n) h = omega arith

-- A product of w + 1 and w bits fits in 2 w + 1.
Fits-mul : (w : ℕ) (a b : ℤ) → 1 ≤ w → Fits (w + 1) a → Fits w b → Fits (2 * w + 1) (a *ℤ b)
Fits-mul w a b some_width h k = magnitude-Fits (2 * w + 1) (a *ℤ b) (
    omega (
      arith,
      magnitude-mul a b,
      mul-le-mul (Fits-bound (w + 1) a h) (Fits-bound w b k),
      two-pow-add (w + 1 - 1) (w - 1),
      two-pow-pos (w + 1 - 1 + (w - 1)),
      two-pow-succ (w + 1 - 1 + (w - 1)),
      ap (λ e. 2 ^ e) {x = suc (w + 1 - 1 + (w - 1))} {y = 2 * w + 1 - 1} (omega arith),
    ))

Fits-sub : (w : ℕ) (a b : ℤ) → 1 ≤ w → Fits w a → Fits w b → Fits (w + 1) (a -ℤ b)
Fits-sub w a b some_width h k = magnitude-Fits (w + 1) (a -ℤ b) (
    omega (
      arith,
      magnitude-sub w a b h k,
      two-pow-pred w some_width,
      ap (λ e. 2 ^ e) {x = w + 1 - 1} {y = w} (omega arith),
    ))

Fits-add : (v w : ℕ) (a b : ℤ) → 1 ≤ w → v ≡ w + 1 → Fits w a → Fits w b → Fits v (a +ℤ b)
unfolding ◌+ℤ◌
Fits-add v w (pos a) (pos b) some_width e h k =
    ground (arith, two-pow-pred w some_width, ap (λ x. 2 ^ x) {x = v - 1} {y = w} (omega arith))
Fits-add v w (pos a) (negsuc b) some_width e h k =
    ground (arith, two-pow-pred w some_width, ap (λ x. 2 ^ x) {x = v - 1} {y = w} (omega arith))
Fits-add v w (negsuc a) (pos b) some_width e h k =
    ground (arith, two-pow-pred w some_width, ap (λ x. 2 ^ x) {x = v - 1} {y = w} (omega arith))
Fits-add v w (negsuc a) (negsuc b) some_width e h k =
    ground (arith, two-pow-pred w some_width, ap (λ x. 2 ^ x) {x = v - 1} {y = w} (omega arith))

-- The registers hold what their widths allow.
abbrev pub Bounded : ℕ → State → Type 0
Bounded w s =
    Fits (w + 1) s.error
    × Fits (2 * w + 1) s.prop
    × Fits (2 * w + 1) s.int
    × Fits (2 * w + 1) s.int_sum

-- Of the registers only the integrator and the output can wrap around: for a width of 1 or more,
-- from registers within their widths, and for inputs and gains of the width of the controller, the
-- error, the two products and the sum of the next cycle are exact, and the registers stay within
-- their widths.
pub step-exact :
    (w : ℕ) (i : Input) (s : State)
    → 1 ≤ w
    → Fits w i.input
    → Fits w i.setpoint
    → Fits w i.k_p
    → Fits w i.k_i
    → Bounded w s
    → let t : State = step w i s in
      (t.error ≡ i.input -ℤ i.setpoint)
      × (t.prop ≡ s.error *ℤ i.k_p)
      × (t.int ≡ s.error *ℤ i.k_i)
      × (t.sum ≡ s.prop +ℤ s.int_sum)
      × Bounded w t
unfolding step
step-exact w i s some_width a b p k (fits_error, fits_prop, fits_int, fits_sum) =
    rw
      (
        wrap_signed-Fits w i.input some_width a,
        wrap_signed-Fits w i.setpoint some_width b,
        wrap_signed-Fits w i.k_p some_width p,
        wrap_signed-Fits w i.k_i some_width k,
      )
      (
        wrap_signed-Fits (w + 1) (i.input -ℤ i.setpoint) (omega arith)
            (Fits-sub w i.input i.setpoint some_width a b),
        wrap_signed-Fits (2 * w + 1) (s.error *ℤ i.k_p) (omega arith)
            (Fits-mul w s.error i.k_p some_width fits_error p),
        wrap_signed-Fits (2 * w + 1) (s.error *ℤ i.k_i) (omega arith)
            (Fits-mul w s.error i.k_i some_width fits_error k),
        wrap_signed-Fits (2 * w + 2) (s.prop +ℤ s.int_sum) (omega arith) (
            Fits-add (2 * w + 2) (2 * w + 1) s.prop s.int_sum (omega arith) (omega arith) fits_prop
              fits_sum),
        (
          Fits-wrap_signed (w + 1) (i.input -ℤ i.setpoint) (omega arith),
          Fits-wrap_signed (2 * w + 1) (s.error *ℤ i.k_p) (omega arith),
          Fits-wrap_signed (2 * w + 1) (s.error *ℤ i.k_i) (omega arith),
          Fits-wrap_signed (2 * w + 1) (s.int_sum +ℤ s.int) (omega arith),
        ),
      )

-- ===== src/Base/Circuit.antt =====
-- Clocked logic. A Migen module is a state, and a step that a clock edge takes from the inputs of
-- the cycle: the statements of `self.sync` read the old state, and the last assignment wins.
use Prim.Native.Nat.{ℕ, zero, suc, ◌+◌, ◌-◌, ◌%◌, ◌^◌, ◌≤◌, ◌<◌}
use mathlib.Core.Path.{◌≡◌, refl, ap, ◌∙◌}
use native.Mathlib.Omega.{arith}
use native.Mathlib.Nat.{mod-lt, mod-eq_of_lt, add-mod_right, two-pow-succ, pow-suc}
use native.Mathlib.Nat.{mod-mod_of_dvd, dvd_of_mod-eq-zero, mul-mod_right, mul-mod_left}
use mathlib.Core.List.{List, [], ◌∷◌, ◌++◌}
use mathlib.Core.Bool.{Bool, true, false}

-- What a `w`-bit unsigned signal holds after the assignment of x, and of a - b.
abbrev pub wrap : ℕ → ℕ → ℕ
wrap w x = x % 2 ^ w

abbrev pub wrap_sub : ℕ → ℕ → ℕ → ℕ
wrap_sub w a b = (a + (2 ^ w - b % 2 ^ w)) % 2 ^ w

-- A one-bit signal as a number.
abbrev pub to_ℕ : Bool → ℕ
to_ℕ true = 1
to_ℕ false = 0

module _ {ℓ} {S : Type ℓ} where
  -- `n` cycles under the same inputs.
  abbrev pub cycles : ℕ → (S → S) → S → S
  cycles zero step s = s
  cycles (suc n) step s = step (cycles n step s)

module _ {ℓ κ} {S : Type ℓ} {I : Type κ} where
  -- The state after one cycle for each input of the list.
  abbrev pub run : (I → S → S) → List I → S → S
  run step [] s = s
  run step (i ∷ is) s = run step is (step i s)

module _ {ℓ κ} {S : Type ℓ} {I : Type κ} where
  pub run-append :
      (step : I → S → S) (is js : List I) (s : S)
      → run step (is ++ js) s ≡ run step js (run step is s)
  run-append step [] js s = refl
  run-append step (i ∷ is) js s = run-append step is js (step i s)

module _ {ℓ κ μ} {S : Type ℓ} {I : Type κ} {O : Type μ} where
  -- The outputs after each cycle.
  abbrev pub trace : (S → O) → (I → S → S) → List I → S → List O
  trace view step [] s = []
  trace view step (i ∷ is) s = view (step i s) ∷ trace view step is (step i s)

pub two-pow-pos : (w : ℕ) → 0 < 2 ^ w
two-pow-pos zero = omega arith
two-pow-pos (suc w) = omega (arith, two-pow-succ w, two-pow-pos w)

pub two-pow-gt_one : (w : ℕ) → 1 ≤ w → 1 < 2 ^ w
two-pow-gt_one zero h = absurd (omega arith)
two-pow-gt_one (suc w) h = omega (arith, two-pow-succ w, two-pow-pos w)

pub wrap-lt : (w x : ℕ) → wrap w x < 2 ^ w
wrap-lt w x = mod-lt x (two-pow-pos w)

-- Without a borrow the subtraction is exact.
pub wrap_sub_exact : (w a b : ℕ) → b ≤ a → a < 2 ^ w → wrap_sub w a b ≡ a - b
wrap_sub_exact w a b h fits = rw (mod-eq_of_lt {n = b} {m = 2 ^ w} (omega arith)) (
    ap (λ x. x % 2 ^ w) {x = a + (2 ^ w - b)} {y = a - b + 2 ^ w} (omega arith)
    ∙ add-mod_right (a - b) (2 ^ w)
    ∙ mod-eq_of_lt (omega arith))

-- With a borrow it is short by the modulus.
pub wrap_sub_borrow : (w a b : ℕ) → a < b → b < 2 ^ w → wrap_sub w a b ≡ a + 2 ^ w - b
wrap_sub_borrow w a b h fits = rw (mod-eq_of_lt {n = b} {m = 2 ^ w} fits) (
    ap (λ x. x % 2 ^ w) {x = a + (2 ^ w - b)} {y = a + 2 ^ w - b} (omega arith)
    ∙ mod-eq_of_lt (omega arith))

module _ {ℓ κ μ} {S : Type ℓ} {I : Type κ} {O : Type μ} where
  pub trace-append :
      (view : S → O) (step : I → S → S) (is js : List I) (s : S)
      → trace view step (is ++ js) s ≡ trace view step is s ++ trace view step js (run step is s)
  trace-append view step [] js s = refl
  trace-append view step (i ∷ is) js s =
      ap (λ l. view (step i s) ∷ l) (trace-append view step is js (step i s))

-- Dropping a bit of a wrapped value is dropping it of the value.
pub wrap-wrap-suc : (w x : ℕ) → wrap w (wrap (suc w) x) ≡ wrap w x
wrap-wrap-suc w x =
    mod-mod_of_dvd (2 ^ w) x
      (dvd_of_mod-eq-zero (2 ^ w) (rw (pow-suc 2 w) (mul-mod_right (2 ^ w) 2)))

pub wrap-mod_two : (w x : ℕ) → 1 ≤ w → wrap w x % 2 ≡ x % 2
wrap-mod_two zero x h = absurd (omega arith)
wrap-mod_two (suc w) x h =
    mod-mod_of_dvd 2 x (dvd_of_mod-eq-zero 2 (rw (pow-suc 2 w) (mul-mod_left (2 ^ w) 2)))

pub two-pow-pred : (w : ℕ) → 1 ≤ w → 2 ^ w ≡ 2 ^ (w - 1) + 2 ^ (w - 1)
two-pow-pred zero h = absurd (omega arith)
two-pow-pred (suc w) h =
    two-pow-succ w ∙ ap (λ k. 2 ^ k + 2 ^ k) {x = w} {y = suc w - 1} (omega arith)

-- ===== src/PulseGen/Period.antt =====
-- How often MigenPulseGen emits a pulse.
use mathlib.Core.Path.{subst}
use native.Mathlib.Nat.{mod-lt, mod-eq_of_lt, mod_self, suc-mod}
use native.Mathlib.Decide.{dec_lt}
use pypga.Base.{
  ℕ, zero, suc, ◌+◌, ◌%◌, ◌^◌, ◌≤◌, ◌<◌, ◌≡◌, ◌⊎◌, inl, inr, ◌∙◌, ap, sym, refl, false, true, arith,
  ◌==◌, if◌then◌else◌,
}
use pypga.Base.Circuit.{cycles, wrap_sub_exact}
use pypga.PulseGen.{Config, State, step, start}

-- The counter `j` cycles after one in which `carry` is high, while the output is on.
abbrev pub At : ℕ → ℕ → State → Type 0
At period zero s = (s.restart ≡ false) × (s.carry ≡ true)
At period (suc j) s = (s.restart ≡ false) × (s.carry ≡ false) × (s.count + j ≡ period)

next_phase :
    (n p : ℕ)
    → ((n % (p + 2) ≤ p) × (suc n % (p + 2) ≡ suc (n % (p + 2))))
      ⊎ ((n % (p + 2) ≡ suc p) × (suc n % (p + 2) ≡ 0))
next_phase n p = elim (dec_lt (n % (p + 2)) (p + 1)) [
  | yes h ↦ inl (omega arith, suc-mod n (p + 2) ∙ mod-eq_of_lt (omega arith))
  | no h ↦
      let top : n % (p + 2) ≡ suc p = omega (arith, mod-lt n {m = p + 2} (omega arith)) in
      let full : suc (n % (p + 2)) ≡ p + 2 = omega arith in
      inr (top, suc-mod n (p + 2) ∙ ap (λ k. k % (p + 2)) full ∙ mod_self (p + 2))
]

-- Where in its cycle the generator starts.
abbrev pub first_phase : Config → ℕ
first_phase c = if c.high_after_on then 0 else suc c.offset

module _ (c : Config) (period : ℕ) (fits : period < 2 ^ c.width) where
  step-At :
      (j : ℕ) (s : State) → j ≤ period → At period j s → At period (suc j) (step c period true s)
  unfolding step
  step-At zero s h a = ground (arith, mod-eq_of_lt fits)
  step-At (suc j) s h a = ground arith

  step-At_last : (s : State) → At period (suc period) s → At period 0 (step c period true s)
  unfolding step
  step-At_last s a = ground arith

  step-At_mod :
      (n : ℕ) (s : State)
      → At period (n % (period + 2)) s
      → At period (suc n % (period + 2)) (step c period true s)
  step-At_mod n s a = elim (next_phase n period) [
    | inl (h, e) ↦ subst (λ j. At period j (step c period true s)) (sym e) (step-At _ s h a)
    | inr (h, e) ↦
        subst (λ j. At period j (step c period true s)) (sym e)
          (step-At_last s (subst (λ j. At period j s) h a))
  ]

  pub cycles-At :
      (j n : ℕ) (s : State)
      → At period (j % (period + 2)) s
      → At period ((n + j) % (period + 2)) (cycles n (step c period true) s)
  cycles-At j zero s a = subst (λ k. At period (k % (period + 2)) s) (omega arith) a
  cycles-At j (suc n) s a =
      subst (λ k. At period (k % (period + 2)) (cycles (suc n) (step c period true) s))
        (omega arith) (step-At_mod (n + j) _ (cycles-At j n s a))

  out-At : (j : ℕ) (s : State) → At period j s → (step c period true s).out ≡ (j == 0)
  unfolding step
  out-At zero s a = ground arith
  out-At (suc j) s a = ground arith

  start-At : c.offset ≤ period → At period (first_phase c) (start c period)
  unfolding start
  start-At h = ground (arith, wrap_sub_exact c.width period c.offset h fits)

  first_phase-lt : c.offset ≤ period → first_phase c < period + 2
  first_phase-lt h = ground arith

  -- With `on` held high and the offset at most the period, a MigenPulseGen as constructed is low at
  -- reset, and after the (n + 1)-th clock edge its output is high exactly when n plus the first
  -- phase is a multiple of period + 2. The first phase is 0 with `high_after_on`, and otherwise one
  -- more than the offset: so pulses come every period + 2 cycles.
  pub out-cycles :
      (n : ℕ)
      → c.offset ≤ period
      → ((start c period).out ≡ false)
        × ((cycles (suc n) (step c period true) (start c period)).out
            ≡ ((n + first_phase c) % (period + 2) == 0))
  unfolding start
  out-cycles n h = (
    refl,
    out-At _ _ (
        cycles-At (first_phase c) n (start c period) (
          subst (λ j. At period j (start c period)) (sym (mod-eq_of_lt (first_phase-lt h)))
            (start-At h))),
  )

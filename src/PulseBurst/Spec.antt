-- ===== src/PulseBurst/Spec.antt =====
-- What a MigenPulseBurstGen does, cycle by cycle, and that the module does it.
use pypga.Base.{
  ℕ, zero, suc, ◌^◌, ◌≤◌, ◌<◌, ◌≡◌, refl, Bool, true, false, List, [], ◌∷◌, arith, if◌then◌else◌,
}
use native.Mathlib.Nat.{mod-eq_of_lt}
use pypga.Base.Circuit.{wrap_sub, wrap_sub_exact, trace}
use mathlib.Core.Path.{ap₂}
use pypga.PulseGen
use pypga.PulseBurst.{Config, State, Input, step, start}

-- `busy k c out`: a burst with k more pulses to come after the last one, the next of them (or the
-- end) in c + 1 cycles. `tail` is the first idle cycle after a burst.
pub data Phase : Type 0 where
  idle : Phase
  tail : Phase
  busy : ℕ → ℕ → Bool → Phase

-- The trigger and the reset of a cycle.
abbrev pub Command : Type 0
Command = Bool × Bool

-- The cycles to the second pulse of a burst that starts from rest, less one.
abbrev pub first_gap : ℕ → ℕ → ℕ
first_gap w period = suc (suc (wrap_sub w period 1))

abbrev pub advance : ℕ → ℕ → ℕ → Command → Phase → Phase
advance w pulses period (trigger, true) p = idle
advance w pulses period (trigger, false) idle =
    if trigger then busy pulses (first_gap w period) true else idle
advance w pulses period (trigger, false) tail = if trigger then busy pulses period true else idle
advance w pulses period (trigger, false) (busy k (suc c) out) = busy k c false
advance w pulses period (trigger, false) (busy (suc k) zero out) = busy k (suc period) true
advance w pulses period (trigger, false) (busy zero zero out) =
    if trigger then busy pulses (suc period) true else tail

-- What can be seen from outside: `out`, `busy` and `count`.
abbrev pub Outputs : Type 0
Outputs = Bool × Bool × ℕ

abbrev pub shown : Phase → Outputs
shown (busy k c out) = (out, true, k)
shown _ = (false, false, 0)

abbrev pub outputs : State → Outputs
outputs s = (s.out, s.busy, s.count)

-- The inner generator c + 1 cycles before the next pulse of the burst.
abbrev Counting : ℕ → ℕ → PulseGen.State → Type 0
Counting period zero g = (g.out ≡ true) × (g.carry ≡ false) × (g.count ≡ period)
Counting period (suc zero) g = (g.out ≡ false) × (g.carry ≡ true)
Counting period (suc (suc c)) g = (g.out ≡ false) × (g.carry ≡ false) × (g.count ≡ c)

abbrev Implements : ℕ → ℕ → Phase → State → Type 0
Implements pulses period idle s = (s.pulsegen_on ≡ false) × (s.gen.restart ≡ false)
Implements pulses period tail s =
    (s.pulsegen_on ≡ true) × (s.gen.restart ≡ false) × Counting period (suc period) s.gen
Implements pulses period (busy k c out) s =
    (k ≤ pulses) × (s.pulsegen_on ≡ true) × (s.gen.restart ≡ false) × Counting period c s.gen

module _ (pulses period : ℕ) where
  abbrev pub input : Command → Input
  input (trigger, reset) = record {
    trigger = trigger;
    reset = reset;
    pulses = pulses;
    period = period;
  }

-- The state shows what the phase shows, and will go on to.
abbrev Simulates : ℕ → ℕ → Phase → State → Type 0
Simulates pulses period p s = (outputs s ≡ shown p) × Implements pulses period p s

tail-Simulates :
    (c : Config) (pulses period : ℕ) (trigger : Bool) (s : State)
    → pulses < 2 ^ c.count_width
    → Simulates pulses period tail s
    → Simulates pulses period
        (advance c.width pulses period (trigger, false) tail)
        (step c (input pulses period (trigger, false)) s)
unfolding step
tail-Simulates c pulses zero trigger s fit h = ground (arith, mod-eq_of_lt fit)
tail-Simulates c pulses (suc period) trigger s fit h = ground (arith, mod-eq_of_lt fit)

module _ (c : Config) (pulses period : ℕ) (pulses_fit : pulses < 2 ^ c.count_width)
    (period_fits : period < 2 ^ c.width) where
  step-Simulates :
      (i : Command) (p : Phase) (s : State)
      → Simulates pulses period p s
      → Simulates pulses period
          (advance c.width pulses period i p)
          (step c (input pulses period i) s)
  unfolding step
  step-Simulates (trigger, true) p s h = ground arith
  step-Simulates (trigger, false) idle s h = ground (arith, mod-eq_of_lt pulses_fit)
  step-Simulates (trigger, false) tail s h = tail-Simulates c pulses period trigger s pulses_fit h
  step-Simulates (trigger, false) (busy k (suc zero) out) s h =
      ground (arith, mod-eq_of_lt period_fits)
  step-Simulates (trigger, false) (busy k (suc (suc zero)) out) s h =
      ground (arith, mod-eq_of_lt period_fits)
  step-Simulates (trigger, false) (busy k (suc (suc (suc d))) out) s h =
      ground (arith, mod-eq_of_lt period_fits)
  step-Simulates (trigger, false) (busy (suc k) zero out) s h =
      ground (arith, wrap_sub_exact c.count_width (suc k) 1 (omega arith) (omega arith))
  step-Simulates (trigger, false) (busy zero zero out) s h = ground (arith, mod-eq_of_lt pulses_fit)

  trace-Simulates :
      (is : List Command) (p : Phase) (s : State)
      → Simulates pulses period p s
      → trace outputs (λ i. step c (input pulses period i)) is s
        ≡ trace shown (advance c.width pulses period) is p
  trace-Simulates [] p s h = refl
  trace-Simulates (i ∷ is) p s h =
      let h' = step-Simulates i p s h in
      ap₂ ◌∷◌ h'.0 (trace-Simulates is (advance c.width pulses period i p) _ h')

  -- Whatever triggers and resets come in, the module shows after every cycle, from its reset
  -- state, what the phases show. The number of pulses and the period, at constant inputs, fit in
  -- their registers.
  pub trace-eq-phases :
      (initial : ℕ) (is : List Command)
      → trace outputs (λ i. step c (input pulses period i)) is (start c initial)
        ≡ trace shown (advance c.width pulses period) is idle
  unfolding start
  trace-eq-phases initial is = trace-Simulates is idle (start c initial) (refl, (refl, refl))

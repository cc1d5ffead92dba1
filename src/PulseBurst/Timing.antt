-- ===== src/PulseBurst/Timing.antt =====
-- The pulses of a burst of MigenPulseBurstGen, as the unit test of the module describes them.
use pypga.Base.{
  ℕ, zero, suc, ◌+◌, ◌*◌, ◌^◌, ◌≤◌, ◌<◌, ◌≡◌, refl, sym, ap, ◌∙◌, Bool, true, false, List, [], ◌∷◌,
  ◌++◌, map, length, replicate, arith, All,
}
use pypga.Base.Circuit.{wrap_sub_exact, wrap_sub_borrow, trace, run, trace-append, two-pow-gt_one}
use mathlib.Core.Path.{ap₂}
use pypga.PulseBurst.{Config, step, start}
use pypga.PulseBurst.Spec.{
  idle, busy, tail, Command, Outputs, outputs, shown, advance, first_gap, input, trace-eq-phases,
}

-- Cycles with the given trigger and no reset.
abbrev pub commands : List Bool → List Command
commands = map (λ trigger. (trigger, false))

-- A pulse and the low cycles behind it, for each value of `count` below `k`.
abbrev pub pulses_below : ℕ → ℕ → List Outputs
pulses_below period zero = []
pulses_below period (suc k) =
    (true, true, k) ∷ (replicate (suc period) (false, true, k) ++ pulses_below period k)

-- A burst whose first pulse is followed by `gap` low cycles.
abbrev pub burst : ℕ → ℕ → ℕ → List Outputs
burst gap pulses period =
    (true, true, pulses) ∷ (replicate gap (false, true, pulses) ++ pulses_below period pulses)

module _ (w pulses period : ℕ) where
  busy_pattern :
      (ts : List Bool) (k c : ℕ) (out : Bool)
      → length ts ≡ c + k * (period + 2)
      → (trace shown (advance w pulses period) (commands ts) (busy k c out)
          ≡ replicate c (false, true, k) ++ pulses_below period k)
        × ((last : Bool) × (run (advance w pulses period) (commands ts) (busy k c out)
              ≡ busy 0 0 last))
  busy_pattern [] zero zero out e = (refl, (out, refl))
  busy_pattern [] (suc k) zero out e = absurd (omega arith)
  busy_pattern [] k (suc c) out e = absurd (omega arith)
  busy_pattern (t ∷ ts) k (suc c) out e =
      let (seen, ends) = busy_pattern ts k c false (omega arith) in
      (ap (λ l. (false, true, k) ∷ l) seen, ends)
  busy_pattern (t ∷ ts) (suc k) zero out e =
      let (seen, ends) = busy_pattern ts k (suc period) true (omega arith) in
      (ap (λ l. (true, true, k) ∷ l) seen, ends)
  busy_pattern (t ∷ ts) zero zero out e = absurd (omega arith)

  -- From rest: the burst, and the phase that it ends in.
  burst_phases :
      (gap : ℕ) (ts : List Bool)
      → first_gap w period ≡ gap
      → length ts ≡ gap + pulses * (period + 2)
      → (trace shown (advance w pulses period) (commands (true ∷ ts)) idle
          ≡ burst gap pulses period)
        × ((last : Bool) × (run (advance w pulses period) (commands (true ∷ ts)) idle
              ≡ busy 0 0 last))
  burst_phases gap ts first e =
      let (shows, ends) =
        busy_pattern ts pulses (first_gap w period) true
          (e ∙ ap (λ g. g + pulses * (period + 2)) (sym first)) in
      (ap (λ l. (true, true, pulses) ∷ l) shows ∙ ap (λ g. burst g pulses period) first, ends)

  tail_phases :
      (us : List Bool) (last : Bool)
      → length us ≡ period + pulses * (period + 2)
      → trace shown (advance w pulses period) (commands (false ∷ true ∷ us)) (busy 0 0 last)
        ≡ (false, false, 0) ∷ burst period pulses period
  tail_phases us last d =
      ap (λ l. (false, false, 0) ∷ (true, true, pulses) ∷ l)
        (busy_pattern us pulses period true d).0

  idle_phases :
      (us : List Bool)
      → All (λ b. b ≡ false) us
      → trace shown (advance w pulses period) (commands us) idle
        ≡ replicate (length us) (false, false, 0)
  idle_phases [] h = refl
  idle_phases (u ∷ us) (h, hs) = rw h (ap (λ l. (false, false, 0) ∷ l) (idle_phases us hs))

  rest_phases :
      (us : List Bool)
      → All (λ b. b ≡ false) us
      → trace shown (advance w pulses period) (commands us) tail
        ≡ replicate (length us) (false, false, 0)
  rest_phases [] h = refl
  rest_phases (u ∷ us) (h, hs) = rw h (ap (λ l. (false, false, 0) ∷ l) (idle_phases us hs))

  -- Behind the last cycle of a burst.
  end_phases :
      (us : List Bool) (last : Bool)
      → All (λ b. b ≡ false) us
      → trace shown (advance w pulses period) (commands us) (busy 0 0 last)
        ≡ replicate (length us) (false, false, 0)
  end_phases [] last h = refl
  end_phases (u ∷ us) last (h, hs) = rw h (ap (λ l. (false, false, 0) ∷ l) (rest_phases us hs))

module _ (c : Config) (pulses period : ℕ) (pulses_fit : pulses < 2 ^ c.count_width)
    (period_fits : period < 2 ^ c.width) where
  -- The outputs of the module from its reset state.
  abbrev seen : List Command → List Outputs
  seen is = trace outputs (λ i. step c (input pulses period i)) is (start c period)

  first_gap_lem : 1 ≤ period → first_gap c.width period ≡ suc period
  first_gap_lem some_period = omega (arith, wrap_sub_exact c.width period 1 some_period period_fits)

  seen-eq-phases :
      (is : List Command) → seen is ≡ trace shown (advance c.width pulses period) is idle
  seen-eq-phases = trace-eq-phases c pulses period pulses_fit period_fits period

  -- For a period of at least 1, a trigger in the reset state gives pulses + 1 pulses, one every
  -- period + 2 cycles, with `count` going from `pulses` down to 0 and `busy` high throughout,
  -- whatever the trigger does in the cycles up to the last one of the burst.
  pub burst_from_rest :
      (ts : List Bool)
      → 1 ≤ period
      → length ts ≡ suc period + pulses * (period + 2)
      → seen (commands (true ∷ ts)) ≡ burst (suc period) pulses period
  burst_from_rest ts some_period e =
      seen-eq-phases (commands (true ∷ ts))
      ∙ (burst_phases c.width pulses period (suc period) ts (first_gap_lem some_period) e).0

  -- Behind the burst there is nothing until the next trigger.
  pub burst_and_rest :
      (ts us : List Bool)
      → 1 ≤ period
      → length ts ≡ suc period + pulses * (period + 2)
      → All (λ b. b ≡ false) us
      → seen (commands (true ∷ ts) ++ commands us)
        ≡ burst (suc period) pulses period ++ replicate (length us) (false, false, 0)
  burst_and_rest ts us some_period e quiet =
      let (first, (last, ends)) =
        burst_phases c.width pulses period (suc period) ts (first_gap_lem some_period) e in
      seen-eq-phases (commands (true ∷ ts) ++ commands us)
      ∙ trace-append shown (advance c.width pulses period) (commands (true ∷ ts)) _ idle
      ∙ ap₂ ◌++◌ first (
          ap (trace shown (advance c.width pulses period) (commands us)) ends
          ∙ end_phases c.width pulses period us last quiet)

  -- A trigger in the very first idle cycle after a burst gives a second burst whose first pulse is
  -- followed by `period` low cycles only, one less than all its other pulses.
  pub burst_after_burst :
      (ts us : List Bool)
      → 1 ≤ period
      → length ts ≡ suc period + pulses * (period + 2)
      → length us ≡ period + pulses * (period + 2)
      → seen (commands (true ∷ ts) ++ commands (false ∷ true ∷ us))
        ≡ burst (suc period) pulses period ++ ((false, false, 0) ∷ burst period pulses period)
  burst_after_burst ts us some_period e d =
      let (first, (last, ends)) =
        burst_phases c.width pulses period (suc period) ts (first_gap_lem some_period) e in
      seen-eq-phases (commands (true ∷ ts) ++ commands (false ∷ true ∷ us))
      ∙ trace-append shown (advance c.width pulses period) (commands (true ∷ ts)) _ idle
      ∙ ap₂ ◌++◌ first (
          ap (trace shown (advance c.width pulses period) (commands (false ∷ true ∷ us))) ends
          ∙ tail_phases c.width pulses period us last d)

  -- For period 0, which asks for a pulse every other cycle, the first pulse of a burst from the
  -- reset state is followed by 2 ^ width + 1 low cycles; only the later gaps are one cycle.
  pub burst_period_zero :
      (ts : List Bool)
      → period ≡ 0
      → 1 ≤ c.width
      → length ts ≡ 2 ^ c.width + 1 + pulses * (period + 2)
      → seen (commands (true ∷ ts)) ≡ burst (2 ^ c.width + 1) pulses period
  burst_period_zero ts none_ wide e =
      seen-eq-phases (commands (true ∷ ts))
      ∙ (burst_phases c.width pulses period (2 ^ c.width + 1) ts wrapped e).0
    where
      wrapped : first_gap c.width period ≡ 2 ^ c.width + 1
      wrapped =
          omega
            (arith, wrap_sub_borrow c.width period 1 (omega arith) (two-pow-gt_one c.width wide))

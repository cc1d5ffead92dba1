-- ===== src/Awg/Playing.antt =====
-- What an Awg puts out behind a trigger.
use pypga.Base.{
  ℕ, zero, suc, ◌+◌, ◌-◌, ◌*◌, ◌^◌, ◌≤◌, ◌<◌, ◌≡◌, refl, ap, ◌∙◌, Bool, true, false, List, [], ◌∷◌,
  ◌++◌, map, length, replicate, length-map, some, get_or, arith,
}
use native.Mathlib.Nat.{mod-eq_of_lt}
use mathlib.Core.List.{reverse, reverse_aux}
use pypga.Base.Circuit.{wrap, trace}
use pypga.Memory
use pypga.PulseBurst
use pypga.PulseBurst.Spec.{Outputs, outputs, input}
use mathlib.Core.Path.{ap₂}
use pypga.PulseBurst.Timing.{commands, pulses_below, burst_from_rest}
use pypga.Awg.{Config, State, Input, step, power_on, out, any_trigger}

-- The three triggers of a cycle.
abbrev pub Triggers : Type 0
Triggers = Bool × Bool × Bool

-- A cycle without a write of the processor to `data`.
abbrev pub cycle : ℕ → Triggers → Input
cycle period (trigger, software_trigger, always_on) = record {
  trigger = trigger;
  software_trigger = software_trigger;
  always_on = always_on;
  sampling_period_cycles = period;
  storage = 0;
  re = false;
}

abbrev pub asked : List Triggers → List Bool
asked ts = map (λ t. any_trigger (cycle 0 t)) ts

-- Each value for `n` cycles.
abbrev pub held : ℕ → List ℕ → List ℕ
held n [] = []
held n (v ∷ vs) = replicate n v ++ held n vs

-- The memory, which stays, at an index of the burst.
abbrev at : Config → List ℕ → Outputs → ℕ
at c memory (high, active, k) = get_or memory (wrap c.values.adr_width k) 0

-- The register of the logic that would write to the memory is idle.
abbrev Keeps : List ℕ → State → Type 0
Keeps memory s = (s.values.memory ≡ memory) × (s.values.ps_we ≡ false)

step-Keeps :
    (c : Config) (period : ℕ) (memory : List ℕ) (t : Triggers) (s : State)
    → c.values.readonly ≡ false
    → Keeps memory s
    → Keeps memory (step c (cycle period t) s)
unfolding step Memory.step
step-Keeps c period memory (a, b, d) s writable keeps = ground arith

-- The burst generator runs by itself.
abbrev bursts : Config → ℕ → List Triggers → PulseBurst.State → List Outputs
bursts c period ts s =
    trace outputs
      (λ t. PulseBurst.step c.burst (record {
        trigger = any_trigger (cycle 0 t);
        reset = false;
        pulses = c.data_depth - 1;
        period = period;
      }))
      ts s

-- The output is what the memory holds at the count of a cycle before.
out-delayed :
    (c : Config) (period : ℕ) (memory : List ℕ) (ts : List Triggers) (t : Triggers) (s : State)
    → c.values.readonly ≡ false
    → Keeps memory s
    → trace out (step c) (map (cycle period) (ts ++ (t ∷ []))) s
      ≡ map (at c memory) (outputs s.pulseburst ∷ bursts c period ts s.pulseburst)
unfolding step out any_trigger
out-delayed c period memory [] (a, b, d) s writable keeps =
    let kept = step-Keeps c period memory (a, b, d) s writable keeps in rw kept.0 refl
out-delayed c period memory (u ∷ ts) t s writable keeps =
    let kept = step-Keeps c period memory u s writable keeps in
    ap₂ ◌∷◌ (ap (λ m. get_or m (wrap c.values.adr_width s.pulseburst.count) 0) kept.0)
      (out-delayed c period memory ts t (step c (cycle period u) s) writable kept)

bursts-eq-seen :
    (c : Config) (period : ℕ) (ts : List Triggers) (s : PulseBurst.State)
    → bursts c period ts s
      ≡ trace outputs
          (λ i. PulseBurst.step c.burst (input (c.data_depth - 1) period i))
          (commands (asked ts))
          s
bursts-eq-seen c period [] s = refl
bursts-eq-seen c period (t ∷ ts) s =
    let next : PulseBurst.State =
      PulseBurst.step c.burst (input (c.data_depth - 1) period (any_trigger (cycle 0 t), false))
        s in
    ap (λ l. outputs next ∷ l) (bursts-eq-seen c period ts next)

get_or-reverse_aux :
    (vs rest : List ℕ) (j : ℕ) → get_or (reverse_aux vs rest) (length vs + j) 0 ≡ get_or rest j 0
get_or-reverse_aux [] rest j = ap (λ i. get_or rest i 0) {x = 0 + j} {y = j} (omega arith)
get_or-reverse_aux (v ∷ vs) rest j =
    ap (λ i. get_or (reverse_aux vs (v ∷ rest)) i 0) {x = suc (length vs) + j}
      {y = length vs + suc j} (omega arith)
    ∙ get_or-reverse_aux vs (v ∷ rest) (suc j)

map-replicate :
    (f : Outputs → ℕ) (n : ℕ) (x : Outputs) (xs : List Outputs)
    → map f (replicate n x ++ xs) ≡ replicate n (f x) ++ map f xs
map-replicate f zero x xs = refl
map-replicate f (suc n) x xs = ap (λ l. f x ∷ l) (map-replicate f n x xs)

-- The pulses of a burst read the reversed values in their order.
values_read :
    (c : Config) (period : ℕ) (vs rest : List ℕ)
    → length vs ≤ 2 ^ c.values.adr_width
    → map (at c (reverse_aux vs rest)) (pulses_below period (length vs))
      ≡ held (suc (suc period)) vs
values_read c period [] rest fits = refl
values_read c period (v ∷ vs) rest fits =
    let index : wrap c.values.adr_width (length vs) ≡ length vs = mod-eq_of_lt (omega arith) in
    let word : get_or (reverse_aux vs (v ∷ rest)) (wrap c.values.adr_width (length vs)) 0 ≡ v =
      rw index (
        ap (λ i. get_or (reverse_aux vs (v ∷ rest)) i 0) {x = length vs} {y = length vs + 0}
          (omega arith)
        ∙ get_or-reverse_aux vs (v ∷ rest) 0) in
    ap₂ (λ a l. a ∷ l) word
      (map-replicate (at c (reverse_aux vs (v ∷ rest))) (suc period) (false, true, length vs)
          (pulses_below period (length vs))
        ∙ ap₂ (λ a l. replicate (suc period) a ++ l) word
            (values_read c period vs (v ∷ rest) (omega arith)))

-- The depth, the widths and the memory are those of the values.
abbrev pub Holds : Config → ℕ → List ℕ → Type 0
Holds c period vs =
    (length vs ≡ c.data_depth)
    × (1 ≤ c.data_depth)
    × (c.data_depth ≤ 2 ^ c.values.adr_width)
    × (c.values.readonly ≡ false)
    × (c.data_depth ≤ 2 ^ c.burst.count_width)
    × (period < 2 ^ c.burst.width)
    × (1 ≤ period)

-- From power-on, with values that fill `data` and fit, and a period register that holds 1 or more:
-- a trigger in the first cycle, from the input, the processor or `always_on`, puts out every value
-- of the initial data in its order, each for period + 2 cycles, one cycle behind the pulse that
-- announces it, and before that for one cycle the last one, whatever the triggers do in between.
pub values_in_order :
    (c : Config) (period : ℕ) (vs : List ℕ) (t₁ t₂ : Triggers) (ts : List Triggers)
    → Holds c period vs
    → any_trigger (cycle period t₁) ≡ true
    → length ts ≡ suc period + (c.data_depth - 1) * (period + 2)
    → trace out (step c) (map (cycle period) (t₁ ∷ (ts ++ (t₂ ∷ [])))) (power_on c (some vs) period)
      ≡ get_or (reverse vs) 0 0 ∷ held (suc (suc period)) vs
unfolding power_on Memory.initial_data PulseBurst.start any_trigger
values_in_order c period vs t₁ t₂ ts
      (filled, some_value, addressed, writable, counted, timed, some_period) triggered e =
    out-delayed c period (reverse vs) (t₁ ∷ ts) t₂ (power_on c (some vs) period) writable
      (refl, refl)
    ∙ ap₂ ◌∷◌
        (ap (λ i. get_or (reverse vs) i 0) {x = wrap c.values.adr_width 0}
          (mod-eq_of_lt (omega arith)))
        (ap (map (at c (reverse vs))) (
            bursts-eq-seen c period (t₁ ∷ ts) (PulseBurst.start c.burst period)
            ∙ ap
                (λ b.
                  trace outputs (λ i. PulseBurst.step c.burst (input (c.data_depth - 1) period i))
                    (commands (b ∷ asked ts)) (PulseBurst.start c.burst period))
                triggered
            ∙ burst_from_rest c.burst (c.data_depth - 1) period (omega arith) timed (asked ts)
                some_period (length-map ts (λ t. any_trigger (cycle 0 t)) ∙ e)
            ∙ ap (pulses_below period) {x = suc (c.data_depth - 1)} {y = length vs} (omega arith))
          ∙ values_read c period vs [] (omega arith))

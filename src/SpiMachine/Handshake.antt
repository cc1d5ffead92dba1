-- ===== src/SpiMachine/Handshake.antt =====
-- The state machine starts its clock generator only when that is idle, and never waits for a clock
-- generator that does not run.
use pypga.Base.{
  ℕ, ◌-◌, ◌^◌, ◌≤◌, ◌<◌, ◌≡◌, ◌&&◌, ◌||◌, refl, Bool, true, false, List, [], ◌∷◌, inl, inr, arith,
  Bool-cases, ltb, ltb→lt,
}
use pypga.Base.Circuit.{run, wrap, wrap_sub, wrap_sub_exact, two-pow-gt_one}
use native.Mathlib.Nat.{mod-eq_of_lt, pow-le-pow_right}
use pypga.Common.{int, get_length}
use pypga.Base.Int.{pos}
use pypga.Common.Bits.{get_length_tight}
use pypga.SpiMachine.{
  larger, Config, State, Input, Shift, Fsm, GenFsm, idle, leading, first, second, trailing, idling,
  gen_idle, counting, step, counter_width, power_on,
}

-- Whether the state waits for a half cycle to end, from the counter on.
abbrev pub waiting : ℕ → Fsm → Bool
waiting n idle = false
waiting n second = true
waiting n f = ltb 0 n

abbrev pub is_counting : GenFsm → Bool
is_counting gen_idle = false
is_counting counting = true

abbrev pub in_second : Fsm → Bool
in_second second = true
in_second f = false

-- The clock generator is started only when it is idle, its counter is then 0, it runs just when the
-- state waits for it, and the second half of a bit belongs to a bit that is counted.
abbrev pub Sound : Config → State → Type 0
Sound c s =
    (s.start && is_counting s.cg.fsm ≡ false)
    × (s.start || is_counting s.cg.fsm ≡ waiting s.counter s.fsm)
    × (is_counting s.cg.fsm ≡ false → s.cg.counter ≡ 0)
    × (in_second s.fsm ≡ true → 0 < s.counter)
    × (s.counter < 2 ^ counter_width c)

-- The lengths fit in the counter, and there is a bit to send.
abbrev pub Fits : Config → Type 0
Fits c =
    (0 < c.data_width)
    × (1 < 2 ^ counter_width c)
    × (c.data_width < 2 ^ counter_width c)
    × (c.leading_halfcycles < 2 ^ counter_width c)
    × (c.trailing_halfcycles < 2 ^ counter_width c)
    × (c.idle_halfcycles < 2 ^ counter_width c)

abbrev pub state : Fsm → ℕ → Bool → GenFsm → ℕ → Shift → State
state f n b g m r = record {
  fsm = f;
  counter = n;
  start = b;
  cg = record { fsm = g; counter = m };
  reg = r;
}

module _ (c : Config) (fits : Fits c) where
  wrapped : (n : ℕ) → n < 2 ^ counter_width c → wrap (counter_width c) n ≡ n
  wrapped n h = mod-eq_of_lt h

  less_one : (n : ℕ) → 0 < n → n < 2 ^ counter_width c → wrap_sub (counter_width c) n 1 ≡ n - 1
  less_one n p h = wrap_sub_exact (counter_width c) n 1 (omega arith) h

  step-Sound_fields :
      (i : Input) (f : Fsm) (n : ℕ) (b : Bool) (g : GenFsm) (m : ℕ) (r : Shift)
      → Sound c (state f n b g m r)
      → Sound c (step c i (state f n b g m r))
  unfolding step
  step-Sound_fields i idle n false gen_idle m r inv =
      ground (arith, wrapped c.leading_halfcycles fits.3, wrapped 1 fits.1)
  step-Sound_fields i idle n true gen_idle m r inv =
      ground (arith, wrapped c.leading_halfcycles fits.3, wrapped 1 fits.1)
  step-Sound_fields i idle n false counting m r inv =
      ground (arith, wrapped c.leading_halfcycles fits.3, wrapped 1 fits.1)
  step-Sound_fields i idle n true counting m r inv = absurd (ground arith)
  step-Sound_fields i leading n false gen_idle m r inv =
      ground (arith, wrapped c.data_width fits.2, less_one n)
  step-Sound_fields i leading n true gen_idle m r inv =
      ground (arith, wrapped c.data_width fits.2, less_one n)
  step-Sound_fields i leading n false counting m r inv =
      ground (arith, wrapped c.data_width fits.2, less_one n)
  step-Sound_fields i leading n true counting m r inv = absurd (ground arith)
  step-Sound_fields i first n false gen_idle m r inv =
      ground (arith, wrapped c.trailing_halfcycles fits.4, less_one n)
  step-Sound_fields i first n true gen_idle m r inv =
      ground (arith, wrapped c.trailing_halfcycles fits.4, less_one n)
  step-Sound_fields i first n false counting m r inv =
      ground (arith, wrapped c.trailing_halfcycles fits.4, less_one n)
  step-Sound_fields i first n true counting m r inv = absurd (ground arith)
  step-Sound_fields i second n false gen_idle m r inv = ground (arith, less_one n)
  step-Sound_fields i second n true gen_idle m r inv = ground (arith, less_one n)
  step-Sound_fields i second n false counting m r inv = ground (arith, less_one n)
  step-Sound_fields i second n true counting m r inv = absurd (ground arith)
  step-Sound_fields i trailing n false gen_idle m r inv =
      ground (arith, wrapped c.idle_halfcycles fits.5, less_one n)
  step-Sound_fields i trailing n true gen_idle m r inv =
      ground (arith, wrapped c.idle_halfcycles fits.5, less_one n)
  step-Sound_fields i trailing n false counting m r inv =
      ground (arith, wrapped c.idle_halfcycles fits.5, less_one n)
  step-Sound_fields i trailing n true counting m r inv = absurd (ground arith)
  step-Sound_fields i idling n false gen_idle m r inv = ground (arith, less_one n)
  step-Sound_fields i idling n true gen_idle m r inv = ground (arith, less_one n)
  step-Sound_fields i idling n false counting m r inv = ground (arith, less_one n)
  step-Sound_fields i idling n true counting m r inv = absurd (ground arith)

  step-Sound : (i : Input) (s : State) → Sound c s → Sound c (step c i s)
  step-Sound i s inv = step-Sound_fields i s.fsm s.counter s.start s.cg.fsm s.cg.counter s.reg inv

  run-Sound : (is : List Input) (s : State) → Sound c s → Sound c (run (step c) is s)
  run-Sound [] s inv = inv
  run-Sound (i ∷ is) s inv = run-Sound is (step c i s) (step-Sound i s inv)

larger-ge : (a b : ℕ) → (2 ^ a ≤ 2 ^ larger a b) × (2 ^ b ≤ 2 ^ larger a b)
unfolding larger
larger-ge a b = elim (Bool-cases (ltb a b)) [
  | inl below ↦ (
    rw (below)
        (pow-le-pow_right {n = 2} (omega arith) {i = a} {j = b} (omega (arith, ltb→lt a b below))),
    rw (below) (omega arith),
  )
  | inr above ↦ (
    rw (above) (omega arith),
    rw (above) (pow-le-pow_right {n = 2} (omega arith) {i = b} {j = a} (ground arith)),
  )
]

-- The width that the constructor computes holds every length.
pub counter_width-Fits : (c : Config) → 0 < c.data_width → Fits c
unfolding counter_width
counter_width-Fits c h =
    let b : (n : ℕ) → (1 ≤ get_length (int (pos n))) × (n < 2 ^ get_length (int (pos n))) =
      λ n. let (p, q, r) = get_length_tight n in (p, q) in
    omega (
      arith,
      h,
      (b c.data_width).1,
      (b c.leading_halfcycles).1,
      (b c.trailing_halfcycles).1,
      (b c.idle_halfcycles).1,
      two-pow-gt_one (get_length (int (pos c.data_width))) (b c.data_width).0,
      larger-ge (get_length (int (pos c.data_width))) (
          larger (get_length (int (pos c.leading_halfcycles))) (
            larger (get_length (int (pos c.trailing_halfcycles)))
              (get_length (int (pos c.idle_halfcycles))))),
      larger-ge (get_length (int (pos c.leading_halfcycles))) (
          larger (get_length (int (pos c.trailing_halfcycles)))
            (get_length (int (pos c.idle_halfcycles)))),
      larger-ge (get_length (int (pos c.trailing_halfcycles)))
          (get_length (int (pos c.idle_halfcycles))),
    )

-- From reset on and under any inputs: the state machine starts its clock generator only when that
-- is idle, and the counter of an idle clock generator is 0; the clock generator starts or counts
-- just when the state machine waits for the end of a half cycle; the second half of a bit is
-- entered only while bits are counted; and the counter stays in its width. There has to be a bit to
-- send.
pub handshake :
    (c : Config) (is : List Input) (r : Shift)
    → 0 < c.data_width
    → Sound c (run (step c) is (power_on r))
unfolding power_on
handshake c is r h =
    let fits = counter_width-Fits c h in
    run-Sound c fits is (power_on r)
      (refl, refl, λ e. refl, λ e. absurd (ground arith), omega (arith, fits.1))

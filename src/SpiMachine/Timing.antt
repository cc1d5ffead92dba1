-- ===== src/SpiMachine/Timing.antt =====
-- The waveform of a transmission.
use pypga.Base.{
  ℕ, zero, suc, ◌+◌, ◌-◌, ◌^◌, ◌<◌, ◌≡◌, refl, Bool, true, false, List, arith, ltb, replicate,
}
use pypga.Base.Circuit.{wrap_sub, wrap_sub_exact}
use pypga.Base.Watch.{Goes}
use pypga.Common.Bits.{get_length_tight}
use pypga.SpiMachine.{
  Config, State, Input, Shift, Fsm, idle, leading, first, second, trailing, idling, gen_idle,
  counting, step, gen_width, counter_width, cs, clk, shift_step,
}
use pypga.SpiMachine.Handshake.{state, waiting, Fits}

-- The settings of a transmission, constant while it lasts; `start` is not.
pub record Setting : Type 0 where
  pub config : Config
  pub phase : Bool
  pub lsb_first : Bool
  pub pdo : List Bool

abbrev pub input : Setting → Bool → Input
input e b = record { begin = b; clk_phase = e.phase; lsb_first = e.lsb_first; pdo = e.pdo }

-- Chip select, clock and data.
unfoldable pub wires : Bool → State → Bool × Bool × Bool
unfolding cs clk
wires phase s = (cs s, clk phase s, s.reg.sdo)

-- The states that count half cycles, and not bits.
abbrev pub counts_halves : Fsm → Bool
counts_halves leading = true
counts_halves trailing = true
counts_halves idling = true
counts_halves f = false

module _ (e : Setting) (fits : Fits e.config) (div : 0 < e.config.clock_div) where
  first_count :
      (wrap_sub (gen_width e.config) e.config.clock_div 1 ≡ e.config.clock_div - 1)
      × (e.config.clock_div < 2 ^ gen_width e.config)
  first_count =
      let (one, room, tight) = get_length_tight e.config.clock_div in
      (wrap_sub_exact (gen_width e.config) e.config.clock_div 1 (omega arith) room, room)

  -- One cycle of a half cycle, while the clock generator counts.
  count_down :
      (i : Bool) (f : Fsm) (n m : ℕ) (r : Shift)
      → waiting n f ≡ true
      → suc m < 2 ^ gen_width e.config
      → step e.config (input e i) (state f n false counting (suc m) r)
        ≡ state f n false counting m r
  unfolding step
  count_down i idle n m r w h = absurd (ground arith)
  count_down i leading n m r w h =
      ground (arith, wrap_sub_exact (gen_width e.config) (suc m) 1 (omega arith) h)
  count_down i first n m r w h =
      ground (arith, wrap_sub_exact (gen_width e.config) (suc m) 1 (omega arith) h)
  count_down i second n m r w h =
      ground (arith, wrap_sub_exact (gen_width e.config) (suc m) 1 (omega arith) h)
  count_down i trailing n m r w h =
      ground (arith, wrap_sub_exact (gen_width e.config) (suc m) 1 (omega arith) h)
  count_down i idling n m r w h =
      ground (arith, wrap_sub_exact (gen_width e.config) (suc m) 1 (omega arith) h)

  starting :
      (i : Bool) (f : Fsm) (n : ℕ) (r : Shift)
      → waiting n f ≡ true
      → step e.config (input e i) (state f n true gen_idle 0 r)
        ≡ state f n false counting (e.config.clock_div - 1) r
  unfolding step
  starting i idle n r w = absurd (ground arith)
  starting i leading n r w = ground (arith, first_count)
  starting i first n r w = ground (arith, first_count)
  starting i second n r w = ground (arith, first_count)
  starting i trailing n r w = ground (arith, first_count)
  starting i idling n r w = ground (arith, first_count)

  -- The end of a half cycle of the states that count half cycles.
  pub ended_counted :
      (i : Bool) (f : Fsm) (n : ℕ) (r : Shift)
      → counts_halves f ≡ true
      → suc n < 2 ^ counter_width e.config
      → step e.config (input e i) (state f (suc n) false counting 0 r)
        ≡ state f n (ltb 0 n) gen_idle 0 r
  unfolding step
  ended_counted i idle n r w h = absurd (ground arith)
  ended_counted i leading n r w h =
      ground (arith, wrap_sub_exact (counter_width e.config) (suc n) 1 (omega arith) h)
  ended_counted i first n r w h = absurd (ground arith)
  ended_counted i second n r w h = absurd (ground arith)
  ended_counted i trailing n r w h =
      ground (arith, wrap_sub_exact (counter_width e.config) (suc n) 1 (omega arith) h)
  ended_counted i idling n r w h =
      ground (arith, wrap_sub_exact (counter_width e.config) (suc n) 1 (omega arith) h)

  pub ended_first :
      (i : Bool) (n : ℕ) (r : Shift)
      → step e.config (input e i) (state first (suc n) false counting 0 r)
        ≡ state second (suc n) true gen_idle 0 r
  unfolding step
  ended_first i n r = ground arith

  pub ended_second :
      (i : Bool) (n : ℕ) (r : Shift)
      → suc n < 2 ^ counter_width e.config
      → step e.config (input e i) (state second (suc n) false counting 0 r)
        ≡ state first n
            (ltb 0 n)
            gen_idle
            0
            (shift_step e.config.data_width e.lsb_first false true e.pdo r)
  unfolding step
  ended_second i n r h =
      ground (arith, wrap_sub_exact (counter_width e.config) (suc n) 1 (omega arith) h)

  -- The levels of the wires do not depend on the clock generator.
  counted :
      (f : Fsm) (n m : ℕ) (r : Shift) (t : State)
      → waiting n f ≡ true
      → ((i : Bool) → step e.config (input e i) (state f n false counting 0 r) ≡ t)
      → m < 2 ^ gen_width e.config
      → Goes
          (wires e.phase)
          (λ i. step e.config (input e i))
          (replicate (suc m) (wires e.phase (state f n true gen_idle 0 r)))
          (state f n false counting m r)
          t
  unfolding wires
  counted f n zero r t w end_ h = (refl, (t, end_, refl))
  counted f n (suc m) r t w end_ h = (
    refl,
    (
      state f n false counting m r,
      (λ i. count_down i f n m r w h),
      counted f n m r t w end_ (omega arith),
    ),
  )

  -- A half cycle takes one cycle more than the clock divider.
  pub half :
      (f : Fsm) (n : ℕ) (r : Shift) (t : State)
      → waiting n f ≡ true
      → ((i : Bool) → step e.config (input e i) (state f n false counting 0 r) ≡ t)
      → Goes
          (wires e.phase)
          (λ i. step e.config (input e i))
          (replicate (e.config.clock_div + 1) (wires e.phase (state f n true gen_idle 0 r)))
          (state f n true gen_idle 0 r)
          t
  half f n r t w end_ = rw (two) (
    refl,
    (
      state f n false counting (e.config.clock_div - 1) r,
      (λ i. starting i f n r w),
      counted f n (e.config.clock_div - 1) r t w end_ (omega (arith, first_count)),
    ),
  )
    where
      two : e.config.clock_div + 1 ≡ suc (suc (e.config.clock_div - 1))
      two = omega arith

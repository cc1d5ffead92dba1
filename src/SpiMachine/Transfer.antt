-- ===== src/SpiMachine/Transfer.antt =====
-- A whole transmission, cycle by cycle.
use pypga.Base.{
  ℕ, zero, suc, ◌+◌, ◌-◌, ◌^◌, ◌<◌, ◌≡◌, refl, ap, ◌∙◌, sym, Bool, true, false, ◌&&◌, not, List, [],
  ◌∷◌, ◌++◌, arith, ◌==◌, ltb, length, replicate, copies, get_or, if◌then◌else◌,
}
use pypga.Base.Circuit.{run, to_ℕ}
use pypga.Base.Watch.{watch, Goes, Goes-append, Goes-watch}
use native.Mathlib.Nat.{mod-eq_of_lt}
use pypga.SpiMachine.{
  State, Shift, Fsm, idle, leading, first, second, trailing, idling, gen_idle, counting, step,
  counter_width,
}
use pypga.SpiMachine.Handshake.{state, waiting, Fits, counter_width-Fits}
use pypga.SpiMachine.Shifting.{shifted, sdo-shifted}
use pypga.SpiMachine.Timing.{
  Setting, input, wires, counts_halves, ended_counted, ended_first, ended_second, half,
}

-- The wires as data goes through: chip select, clock, data.
abbrev pub Wires : Type 0
Wires = Bool × Bool × Bool

-- The two half cycles of a bit.
abbrev pub bit : ℕ → Bool → Bool → List Wires
bit half_cycle phase level =
    replicate half_cycle (true, phase, level) ++ replicate half_cycle (true, not phase, level)

-- The bit that goes out as the k-th.
abbrev pub sent : Setting → ℕ → Bool
sent e k =
    if e.lsb_first then get_or e.pdo k false else get_or e.pdo (e.config.data_width - 1 - k) false

-- The last `n` bits, from bit k on.
abbrev pub bits : Setting → ℕ → ℕ → List Wires
bits e k zero = []
bits e k (suc n) = bit (e.config.clock_div + 1) e.phase (sent e k) ++ bits e (suc k) n

positive : (n : ℕ) → ltb 0 (suc n) ≡ true
positive n = ground arith

-- `n` quiet half cycles, and the cycle in which the counter is seen to be 0.
abbrev pub pause : Setting → ℕ → Bool → Bool → List Wires
pause e n select level =
    copies n (replicate (e.config.clock_div + 1) (select, false, level))
    ++ ((select, false, level) ∷ [])

-- With the second clock phase there is a leading half cycle in any case.
abbrev pub lead : Setting → ℕ
lead e = e.config.leading_halfcycles + to_ℕ (e.phase && e.config.leading_halfcycles == 0)

-- The shift register after the transmission.
abbrev pub sent_all : Setting → Shift → Shift
sent_all e r = shifted e.config.data_width e.lsb_first e.pdo e.config.data_width r

-- The cycles of a transmission behind the one that starts it.
abbrev pub waveform : Setting → Shift → List Wires
waveform e r =
    let level : Bool = (sent_all e r).sdo in
    pause e (lead e) true r.sdo
    ++ (bits e 0 e.config.data_width
        ++ ((true, false, level)
            ∷ (pause e e.config.trailing_halfcycles true level
                ++ pause e e.config.idle_halfcycles false level)))

module _ (e : Setting) (fits : Fits e.config) (div : 0 < e.config.clock_div) where
  -- The clock is low, whatever the counter holds.
  wires-halves :
      (f : Fsm) (n : ℕ) (b : Bool) (r : Shift)
      → counts_halves f ≡ true
      → wires e.phase (state f n b gen_idle 0 r) ≡ wires e.phase (state f 0 false gen_idle 0 r)
  unfolding wires
  wires-halves idle n b r w = absurd (ground arith)
  wires-halves leading n b r w = refl
  wires-halves first n b r w = absurd (ground arith)
  wires-halves second n b r w = absurd (ground arith)
  wires-halves trailing n b r w = refl
  wires-halves idling n b r w = refl

  waiting_halves : (f : Fsm) (n : ℕ) → counts_halves f ≡ true → waiting (suc n) f ≡ true
  waiting_halves idle n w = absurd (ground arith)
  waiting_halves leading n w = ground arith
  waiting_halves first n w = absurd (ground arith)
  waiting_halves second n w = absurd (ground arith)
  waiting_halves trailing n w = ground arith
  waiting_halves idling n w = ground arith

  one_half :
      (f : Fsm) (n : ℕ) (r : Shift)
      → counts_halves f ≡ true
      → suc n < 2 ^ counter_width e.config
      → Goes
          (wires e.phase)
          (λ i. step e.config (input e i))
          (replicate (e.config.clock_div + 1) (wires e.phase (state f 0 false gen_idle 0 r)))
          (state f (suc n) true gen_idle 0 r)
          (state f n (ltb 0 n) gen_idle 0 r)
  one_half f n r w h = rw (sym (wires-halves f (suc n) true r w)) (
      half e fits div f (suc n) r (state f n (ltb 0 n) gen_idle 0 r) (waiting_halves f n w)
        (λ i. ended_counted e fits div i f n r w h))

  halves :
      (f : Fsm) (n : ℕ) (r : Shift)
      → counts_halves f ≡ true
      → n < 2 ^ counter_width e.config
      → Goes
          (wires e.phase)
          (λ i. step e.config (input e i))
          (copies n
            (replicate (e.config.clock_div + 1) (wires e.phase (state f 0 false gen_idle 0 r))))
          (state f n (ltb 0 n) gen_idle 0 r)
          (state f 0 false gen_idle 0 r)
  halves f zero r w h = refl
  halves f (suc n) r w h = rw (positive n) (
      Goes-append (wires e.phase) (λ i. step e.config (input e i))
        (replicate (e.config.clock_div + 1) (wires e.phase (state f 0 false gen_idle 0 r)))
        (copies n
          (replicate (e.config.clock_div + 1) (wires e.phase (state f 0 false gen_idle 0 r))))
        (state f (suc n) true gen_idle 0 r) (state f n (ltb 0 n) gen_idle 0 r)
        (state f 0 false gen_idle 0 r) (one_half f n r w h) (halves f n r w (omega arith)))

  wires-first :
      (n : ℕ) (r : Shift)
      → wires e.phase (state first (suc n) true gen_idle 0 r) ≡ (true, e.phase, r.sdo)
  unfolding wires
  wires-first n r = ground (arith, positive n)

  wires-second :
      (n : ℕ) (r : Shift)
      → wires e.phase (state second (suc n) true gen_idle 0 r) ≡ (true, not e.phase, r.sdo)
  unfolding wires
  wires-second n r = refl

  ended_bit :
      (i : Bool) (n k : ℕ) (r : Shift)
      → suc n < 2 ^ counter_width e.config
      → step e.config (input e i) (
          state second (suc n) false counting 0 (shifted e.config.data_width e.lsb_first e.pdo k r))
        ≡ state first n
            (ltb 0 n)
            gen_idle
            0
            (shifted e.config.data_width e.lsb_first e.pdo (suc k) r)
  unfolding shifted
  ended_bit i n k r h =
      ended_second e fits div i n (shifted e.config.data_width e.lsb_first e.pdo k r) h

  sent-shifted :
      (k : ℕ) (r : Shift)
      → k < e.config.data_width
      → (shifted e.config.data_width e.lsb_first e.pdo k r).sdo ≡ sent e k
  sent-shifted k r h = ground (arith, sdo-shifted e.config.data_width e.pdo k r h)

  -- Bit k, of which n + 1 are left.
  one_bit :
      (n k : ℕ) (r : Shift)
      → suc n + k ≡ e.config.data_width
      → Goes
          (wires e.phase)
          (λ i. step e.config (input e i))
          (bit (e.config.clock_div + 1) e.phase (sent e k))
          (state first (suc n) true gen_idle 0 (shifted e.config.data_width e.lsb_first e.pdo k r))
          (state first n
            (ltb 0 n)
            gen_idle
            0
            (shifted e.config.data_width e.lsb_first e.pdo (suc k) r))
  one_bit n k r h =
      let r' : Shift = shifted e.config.data_width e.lsb_first e.pdo k r in
      rw (sym (sent-shifted k r (omega arith))) (
        Goes-append (wires e.phase) (λ i. step e.config (input e i))
          (replicate (e.config.clock_div + 1) (true, e.phase, r'.sdo))
          (replicate (e.config.clock_div + 1) (true, not e.phase, r'.sdo))
          (state first (suc n) true gen_idle 0 r') (state second (suc n) true gen_idle 0 r')
          (state first n (ltb 0 n) gen_idle 0
            (shifted e.config.data_width e.lsb_first e.pdo (suc k) r))
          (rw (sym (wires-first n r'))
            (half e fits div first (suc n) r' _ (positive n) (λ i. ended_first e fits div i n r')))
          (rw (sym (wires-second n r')) (
            half e fits div second (suc n) r' _ refl
              (λ i. ended_bit i n k r (omega (arith, h, fits.2))))))

  -- The last n bits.
  all_bits :
      (n k : ℕ) (r : Shift)
      → n + k ≡ e.config.data_width
      → Goes
          (wires e.phase)
          (λ i. step e.config (input e i))
          (bits e k n)
          (state first n (ltb 0 n) gen_idle 0 (shifted e.config.data_width e.lsb_first e.pdo k r))
          (state first 0 false gen_idle 0
            (shifted e.config.data_width e.lsb_first e.pdo e.config.data_width r))
  all_bits zero k r h =
      ap (λ j. state first 0 false gen_idle 0 (shifted e.config.data_width e.lsb_first e.pdo j r))
        {x = k} {y = e.config.data_width} (omega arith)
  all_bits (suc n) k r h = rw (positive n) (
      Goes-append (wires e.phase) (λ i. step e.config (input e i))
        (bit (e.config.clock_div + 1) e.phase (sent e k)) (bits e (suc k) n)
        (state first (suc n) true gen_idle 0 (shifted e.config.data_width e.lsb_first e.pdo k r))
        (state first n (ltb 0 n) gen_idle 0
          (shifted e.config.data_width e.lsb_first e.pdo (suc k) r))
        _ (one_bit n k r h) (all_bits n (suc k) r (omega arith)))

  -- The cycles between the phases of a transmission, where the counter is 0.
  to_bits :
      (i : Bool) (r : Shift)
      → step e.config (input e i) (state leading 0 false gen_idle 0 r)
        ≡ state first e.config.data_width true gen_idle 0
            (shifted e.config.data_width e.lsb_first e.pdo 0 r)
  unfolding step shifted
  to_bits i r = ground (arith, mod-eq_of_lt fits.2)

  to_trailing :
      (i : Bool) (r : Shift)
      → step e.config (input e i) (state first 0 false gen_idle 0 r)
        ≡ state trailing e.config.trailing_halfcycles
            (ltb 0 e.config.trailing_halfcycles)
            gen_idle
            0
            r
  unfolding step
  to_trailing i r = ground (arith, mod-eq_of_lt fits.4)

  to_idling :
      (i : Bool) (r : Shift)
      → step e.config (input e i) (state trailing 0 false gen_idle 0 r)
        ≡ state idling e.config.idle_halfcycles (ltb 0 e.config.idle_halfcycles) gen_idle 0 r
  unfolding step
  to_idling i r = ground (arith, mod-eq_of_lt fits.5)

  to_idle :
      (i : Bool) (r : Shift)
      → step e.config (input e i) (state idling 0 false gen_idle 0 r)
        ≡ state idle 0 false gen_idle 0 r
  unfolding step
  to_idle i r = refl

  begun :
      (n : ℕ) (r : Shift)
      → step e.config (input e true) (state idle n false gen_idle 0 r)
        ≡ state leading (lead e) (ltb 0 (lead e)) gen_idle 0 r
  unfolding step
  begun n r = ground (arith, mod-eq_of_lt fits.3, mod-eq_of_lt fits.1)

  paused :
      (f : Fsm) (n : ℕ) (r : Shift) (t : State)
      → counts_halves f ≡ true
      → n < 2 ^ counter_width e.config
      → ((i : Bool) → step e.config (input e i) (state f 0 false gen_idle 0 r) ≡ t)
      → Goes
          (wires e.phase)
          (λ i. step e.config (input e i))
          (copies n
              (replicate (e.config.clock_div + 1) (wires e.phase (state f 0 false gen_idle 0 r)))
            ++ (wires e.phase (state f 0 false gen_idle 0 r) ∷ []))
          (state f n (ltb 0 n) gen_idle 0 r)
          t
  paused f n r t w h turn =
      Goes-append (wires e.phase) (λ i. step e.config (input e i))
        (copies n
          (replicate (e.config.clock_div + 1) (wires e.phase (state f 0 false gen_idle 0 r))))
        (wires e.phase (state f 0 false gen_idle 0 r) ∷ []) (state f n (ltb 0 n) gen_idle 0 r)
        (state f 0 false gen_idle 0 r) t (halves f n r w h) (refl, (t, turn, refl))

  bits_over : (r : Shift) → wires e.phase (state first 0 false gen_idle 0 r) ≡ (true, false, r.sdo)
  unfolding wires
  bits_over r = ground arith

  ending :
      (r : Shift)
      → Goes
          (wires e.phase)
          (λ i. step e.config (input e i))
          ((true, false, r.sdo)
            ∷ (pause e e.config.trailing_halfcycles true r.sdo
                ++ pause e e.config.idle_halfcycles false r.sdo))
          (state first 0 false gen_idle 0 r)
          (state idle 0 false gen_idle 0 r)
  unfolding wires
  ending r = (
    bits_over r,
    (
      state trailing e.config.trailing_halfcycles (ltb 0 e.config.trailing_halfcycles) gen_idle 0 r,
      (λ i. to_trailing i r),
      Goes-append (wires e.phase) (λ i. step e.config (input e i))
          (pause e e.config.trailing_halfcycles true r.sdo)
          (pause e e.config.idle_halfcycles false r.sdo)
          (state trailing e.config.trailing_halfcycles (ltb 0 e.config.trailing_halfcycles) gen_idle
            0 r)
          (state idling e.config.idle_halfcycles (ltb 0 e.config.idle_halfcycles) gen_idle 0 r)
          (state idle 0 false gen_idle 0 r)
          (paused trailing e.config.trailing_halfcycles r _ refl fits.4 (λ i. to_idling i r))
          (paused idling e.config.idle_halfcycles r _ refl fits.5 (λ i. to_idle i r)),
    ),
  )

  Goes-waveform :
      (r : Shift)
      → Goes
          (wires e.phase)
          (λ i. step e.config (input e i))
          (waveform e r)
          (state leading (lead e) (ltb 0 (lead e)) gen_idle 0 r)
          (state idle 0 false gen_idle 0 (sent_all e r))
  unfolding wires
  Goes-waveform r =
      Goes-append (wires e.phase) (λ i. step e.config (input e i)) _ _
        (state leading (lead e) (ltb 0 (lead e)) gen_idle 0 r)
        (state first e.config.data_width true gen_idle 0
          (shifted e.config.data_width e.lsb_first e.pdo 0 r))
        _ (paused leading (lead e) r _ refl lead_fits (λ i. to_bits i r))
        (Goes-append (wires e.phase) (λ i. step e.config (input e i)) _ _
          (state first e.config.data_width true gen_idle 0
            (shifted e.config.data_width e.lsb_first e.pdo 0 r))
          (state first 0 false gen_idle 0 (sent_all e r)) _ some_bits (ending (sent_all e r)))
    where
      some : ltb 0 e.config.data_width ≡ true
      some = ground (arith, fits.0)

      lead_fits : lead e < 2 ^ counter_width e.config
      lead_fits = ground (arith, fits)

      some_bits :
          Goes
            (wires e.phase)
            (λ i. step e.config (input e i))
            (bits e 0 e.config.data_width)
            (state first e.config.data_width true gen_idle 0
              (shifted e.config.data_width e.lsb_first e.pdo 0 r))
            (state first 0 false gen_idle 0 (sent_all e r))
      some_bits = rw some at (all_bits e.config.data_width 0 r (omega arith))

-- A transmission of an idle machine takes its time whatever `start` does meanwhile, and puts on the
-- wires: the leading half cycles, then the two half cycles of each bit, in order from the low or
-- from the high end, with the clock high in the first or the second by its phase, then the trailing
-- half cycles and the idle ones; a half cycle has one cycle more than the divider, and each pause
-- one cycle more than its half cycles. Then the machine is idle again. The settings are constant
-- meanwhile; there is a bit to send and the divider is not 0.
pub transmission :
    (e : Setting) (starts : List Bool) (n : ℕ) (r : Shift)
    → 0 < e.config.data_width
    → 0 < e.config.clock_div
    → length starts ≡ length (waveform e r)
    → (watch
          (wires e.phase)
          (λ i. step e.config (input e i))
          (true ∷ starts)
          (state idle n false gen_idle 0 r)
        ≡ (false, false, r.sdo) ∷ waveform e r)
      × (run (λ i. step e.config (input e i)) (true ∷ starts) (state idle n false gen_idle 0 r)
          ≡ state idle 0 false gen_idle 0 (sent_all e r))
unfolding wires
transmission e starts n r bits_ div h =
    let fits : Fits e.config = counter_width-Fits e.config bits_ in
    let (same, there) =
      Goes-watch (wires e.phase) (λ i. step e.config (input e i)) (waveform e r) starts
        (state leading (lead e) (ltb 0 (lead e)) gen_idle 0 r) _ (Goes-waveform e fits div r) h in
    (
      ap (λ l. (false, false, r.sdo) ∷ l)
          (ap (watch (wires e.phase) (λ i. step e.config (input e i)) starts) (begun e fits div n r)
            ∙ same),
      ap (run (λ i. step e.config (input e i)) starts) (begun e fits div n r) ∙ there,
    )

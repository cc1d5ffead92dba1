-- ===== src/Counter/Carry.antt =====
-- The carry bit of a MigenCounter, and counters that pass their stop value.
use native.Mathlib.Nat.{
  mod-eq_of_lt, div-eq_of_lt, two-pow-succ, div-eq-sub-div, mod-eq-sub-mod, mod-add-mod,
  pow-le-pow_right, mod_self,
}
use native.Mathlib.Decide.{dec_lt, dec_le}
use pypga.Base.{
  ℕ, zero, suc, ◌+◌, ◌-◌, ◌*◌, ◌/◌, ◌%◌, ◌^◌, ◌≤◌, ◌<◌, ◌≡◌, ap, ◌∙◌, sym, true, false, arith, ◌==◌,
}
use pypga.Base.Circuit.{
  cycles, wrap, wrap-lt, wrap_sub, wrap_sub_exact, wrap_sub_borrow, to_ℕ, two-pow-pos,
  wrap-wrap-suc, wrap-mod_two,
}
use pypga.Counter.{
  Config, up, down, Input, State, count, carry, done, step, counter_config, count_register,
}
use pypga.Counter.Counting.{counting}

-- The low bits and the top bit of a value of width + 1 bits.
low_half : (m x : ℕ) → x < m → (x % m ≡ x) × (to_ℕ (x / m % 2 == 1) ≡ 0)
low_half m x h = ground (arith, mod-eq_of_lt h, div-eq_of_lt h)

high_half : (m x : ℕ) → m ≤ x → x < m + m → (x % m ≡ x - m) × (to_ℕ (x / m % 2 == 1) ≡ 1)
high_half m x h k = ground (
  arith,
  mod-eq-sub-mod h,
  mod-eq_of_lt {n = x - m} {m = m} (omega arith),
  div-eq-sub-div (let p : 0 < m = omega arith in p) h,
  div-eq_of_lt {n = x - m} {m = m} (omega arith),
)

count-lt : (c : Config) (s : State) → count c s < 2 ^ c.width
unfolding count
count-lt c s = wrap-lt c.width s.count_with_carry

module _ (c : Config) (i : Input) (s : State) (r : i.reset ≡ false) (o : i.on ≡ true)
    (live : done c i.stop s ≡ false) (fits : i.step_size ≤ 2 ^ c.width) where
  small : count c s < 2 ^ c.width
  unfolding count
  small = wrap-lt c.width s.count_with_carry

  next_up : c.direction ≡ up → (step c i s).count_with_carry ≡ count c s + i.step_size
  unfolding step
  next_up d = ground (
    arith,
    mod-eq_of_lt {n = count c s + i.step_size} {m = 2 ^ suc c.width}
        (omega (arith, two-pow-succ c.width, small)),
  )

  next_down :
      c.direction ≡ down
      → (step c i s).count_with_carry ≡ wrap_sub (suc c.width) (count c s) i.step_size
  unfolding step
  next_down d = ground arith

  -- An enabled step up loses nothing: count and carry together are the sum, if the step size is at
  -- most 2 ^ width.
  pub step_up_exact :
      c.direction ≡ up
      → count c (step c i s) + 2 ^ c.width * to_ℕ (carry c (step c i s)) ≡ count c s + i.step_size
  unfolding carry count
  step_up_exact d = rw (next_up d) (elim (dec_lt (count c s + i.step_size) (2 ^ c.width)) [
    | yes h ↦
        let (low, top) = low_half (2 ^ c.width) (count c s + i.step_size) h in
        rw (low, top) (omega arith)
    | no h ↦
        let (low, top) =
          high_half (2 ^ c.width) (count c s + i.step_size) (omega arith) (omega (arith, small)) in
        rw (low, top) (omega arith)
  ])

  -- An enabled step down: the carry is the borrow.
  pub step_down_exact :
      c.direction ≡ down
      → count c (step c i s) + i.step_size ≡ count c s + 2 ^ c.width * to_ℕ (carry c (step c i s))
  unfolding carry count
  step_down_exact d = rw (next_down d) (elim (dec_le i.step_size (count c s)) [
    | yes h ↦
        let (low, top) = low_half (2 ^ c.width) (count c s - i.step_size) (omega (arith, small)) in
        rw (wrap_sub_exact (suc c.width) (count c s) i.step_size h wide, low, top) (omega arith)
    | no h ↦
        let borrowed = count c s + 2 ^ suc c.width - i.step_size in
        let (low, top) =
          high_half (2 ^ c.width) borrowed (omega (arith, two-pow-succ c.width))
            (omega (arith, two-pow-succ c.width)) in
        rw
          (
            wrap_sub_borrow (suc c.width) (count c s) i.step_size (omega arith)
                (omega (arith, two-pow-succ c.width, two-pow-pos c.width)),
            low,
            top,
          )
          (omega (arith, two-pow-succ c.width))
  ])
    where
      wide : count c s < 2 ^ suc c.width
      wide = omega (arith, two-pow-succ c.width, small)

free_step :
    (c : Config) (start stop size : ℕ) (s : State)
    → c.direction ≡ up
    → done c stop s ≡ false
    → count c (step c (counting start stop size) s) ≡ wrap c.width (count c s + size)
unfolding count step
free_step c start stop size s d live = ground (arith, wrap-wrap-suc c.width (count c s + size))

-- A counter that is on and not reset, with no stop value, or a stop value that is never met.
module _ (c : Config) (start stop size : ℕ) (s : State) (upward : c.direction ≡ up) where
  abbrev after : ℕ → State
  after n = cycles n (step c (counting start stop size)) s

  never_done : c.stoppable ≡ false → (t : State) → done c stop t ≡ false
  unfolding done
  never_done h t = ground arith

  odd_not_done : stop % 2 ≡ 1 → (t : State) → count c t % 2 ≡ 0 → done c stop t ≡ false
  unfolding done
  odd_not_done g t e = ground arith

  -- A counter with no stop value wraps: after n cycles the count is the first count plus n steps,
  -- modulo 2 ^ width.
  pub runs_free :
      c.stoppable ≡ false → (n : ℕ) → count c (after n) ≡ (count c s + n * size) % 2 ^ c.width
  runs_free never zero = sym (
      ap (λ x. x % 2 ^ c.width) {x = count c s + 0 * size} {y = count c s} (omega arith)
      ∙ mod-eq_of_lt (count-lt c s))
  runs_free never (suc n) =
      free_step c start stop size (after n) upward (never_done never (after n))
      ∙ ap (λ x. wrap c.width (x + size)) (runs_free never n)
      ∙ mod-add-mod (count c s + n * size) (2 ^ c.width) size
      ∙ ap (wrap c.width) {x = count c s + n * size + size} {y = count c s + suc n * size}
          (omega arith)

  -- An even first count, an even step and an odd stop value: the counter goes past the stop value
  -- and never reports that it is done, since only equality is tested.
  pub misses_stop :
      1 ≤ c.width
      → count c s % 2 ≡ 0
      → size % 2 ≡ 0
      → stop % 2 ≡ 1
      → (n : ℕ) → done c stop (after n) ≡ false
  misses_stop w e f g n = odd_not_done g (after n) (stays_even n)
    where
      stays_even : (m : ℕ) → count c (after m) % 2 ≡ 0
      stays_even = elim [
        | zero ↦ e
        | suc (m → ih) ↦
            ap (λ x. x % 2)
              (free_step c start stop size (after m) upward (odd_not_done g (after m) ih))
            ∙ wrap-mod_two c.width (count c (after m) + size) w
            ∙ omega (arith, ih)
      ]

-- `Counter(width)` counts in 32 bits whatever its width: below 32 bits, while its own register
-- wraps through zero, `carry` stays low.
pub register_wraps_without_carry :
    (width : ℕ) (i : Input) (s : State)
    → width < 32
    → i.reset ≡ false
    → i.on ≡ true
    → count (counter_config up false) s + i.step_size ≡ 2 ^ width
    → (count_register width (counter_config up false) (step (counter_config up false) i s) ≡ 0)
      × (carry (counter_config up false) (step (counter_config up false) i s) ≡ false)
unfolding counter_config count_register carry count step
register_wraps_without_carry width i s narrow r o e =
    let room : 2 ^ width ≤ 2 ^ 31 =
      pow-le-pow_right {n = 2} (omega arith) {i = width} {j = 31} (omega arith) in
    ground (
      arith,
      room,
      mod_self (2 ^ width),
      mod-eq_of_lt {n = 2 ^ width} {m = 2 ^ 32} (omega (arith, room)),
      mod-eq_of_lt {n = 2 ^ width} {m = 2 ^ 33} (omega (arith, room)),
      div-eq_of_lt {n = 2 ^ width} {m = 2 ^ 32} (omega (arith, room)),
    )

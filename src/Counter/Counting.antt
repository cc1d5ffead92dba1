-- ===== src/Counter/Counting.antt =====
-- Where a MigenCounter gets to, and where it stops.
use pypga.Base.{
  ℕ, zero, suc, ◌+◌, ◌-◌, ◌*◌, ◌^◌, ◌≤◌, ◌<◌, ◌≡◌, ◌≢◌, refl, ap, ◌∙◌, sym, true, false, arith,
  ◌==◌,
}
use native.Mathlib.Decide.{ℕ_discrete}
use native.Mathlib.Nat.{div-eq_of_lt, mod-eq_of_lt, two-pow-succ}
use pypga.Base.Circuit.{cycles, wrap_sub_exact}
use pypga.Counter.{Config, up, down, Input, State, count, carry, done, step}

-- A counter that is on and not reset.
abbrev pub counting : ℕ → ℕ → ℕ → Input
counting start stop size = record {
  start = start;
  stop = stop;
  step_size = size;
  reset = false;
  on = true;
}

module _ (c : Config) (start stop size : ℕ) (s : State) (stoppable : c.stoppable ≡ true)
    (nonzero : 0 < size) where
  up_moves :
      c.direction ≡ up
      → s.count_with_carry + size ≤ stop
      → stop < 2 ^ c.width
      → (step c (counting start stop size) s).count_with_carry ≡ s.count_with_carry + size
  unfolding step
  up_moves d h fits = ground (
    arith,
    two-pow-succ c.width,
    mod-eq_of_lt {n = s.count_with_carry} {m = 2 ^ c.width} (omega arith),
    mod-eq_of_lt {n = s.count_with_carry + size} {m = 2 ^ suc c.width}
        (omega (arith, two-pow-succ c.width)),
  )

  down_moves :
      c.direction ≡ down
      → stop + size ≤ s.count_with_carry
      → s.count_with_carry < 2 ^ c.width
      → (step c (counting start stop size) s).count_with_carry ≡ s.count_with_carry - size
  unfolding step
  down_moves d h fits = ground (
    arith,
    mod-eq_of_lt {n = s.count_with_carry} {m = 2 ^ c.width} fits,
    wrap_sub_exact (suc c.width) s.count_with_carry size (omega arith)
        (omega (arith, two-pow-succ c.width)),
  )

  rests : s.count_with_carry ≡ stop → stop < 2 ^ c.width → step c (counting start stop size) s ≡ s
  unfolding step
  rests h fits =
      ground (arith, mod-eq_of_lt {n = s.count_with_carry} {m = 2 ^ c.width} (omega arith))

-- n + 1 of k steps need no more room than k.
scaled-le : (n k size : ℕ) → n < k → n * size + size ≤ k * size
scaled-le n k size h = grind arith

scaled_le : (n k size : ℕ) → n ≤ k → n * size ≤ k * size
scaled_le n k size h = grind arith

scaled-lt : (n k size : ℕ) → 0 < size → n < k → n * size < k * size
scaled-lt n k size p h = omega (arith, scaled-le n k size h)

same_test :
    (v stop n k : ℕ) → (n < k → v ≢ stop) → (n ≡ k → v ≡ stop) → n ≤ k → (v == stop) ≡ (n == k)
same_test v stop n k apart meet h = elim (ℕ_discrete n k) [
  | yes e ↦ ground (arith, meet e)
  | no ne ↦ ground (arith, apart (omega arith))
]

shows :
    (c : Config) (stop v : ℕ) (s : State)
    → c.stoppable ≡ true
    → s.count_with_carry ≡ v
    → v < 2 ^ c.width
    → (count c s ≡ v) × (carry c s ≡ false) × (done c stop s ≡ (v == stop))
unfolding done carry
shows c stop v s st e fits = ground (
  arith,
  mod-eq_of_lt {n = s.count_with_carry} {m = 2 ^ c.width} (omega arith),
  div-eq_of_lt {n = s.count_with_carry} {m = 2 ^ c.width} (omega arith),
)

module _ (c : Config) (start stop size k : ℕ) (stoppable : c.stoppable ≡ true) (nonzero : 0 < size)
    (s : State) where
  -- The state after n cycles of a counter that is on and not reset.
  abbrev at : ℕ → State
  at n = cycles n (step c (counting start stop size)) s

  rises :
      c.direction ≡ up
      → stop ≡ s.count_with_carry + k * size
      → stop < 2 ^ c.width
      → (n : ℕ) → n ≤ k
      → (at n).count_with_carry ≡ s.count_with_carry + n * size
  rises d e fits zero h = omega arith
  rises d e fits (suc n) h =
      let before = rises d e fits n (omega arith) in
      let room = scaled-le n k size h in
      up_moves c start stop size (at n) stoppable nonzero d (omega (arith, before, room)) fits
      ∙ omega (arith, before)

  falls :
      c.direction ≡ down
      → s.count_with_carry ≡ stop + k * size
      → s.count_with_carry < 2 ^ c.width
      → (n : ℕ) → n ≤ k
      → (at n).count_with_carry + n * size ≡ s.count_with_carry
  falls d e fits zero h = omega arith
  falls d e fits (suc n) h =
      let before = falls d e fits n (omega arith) in
      let room = scaled-le n k size h in
      omega (
        arith,
        before,
        room,
        down_moves c start stop size (at n) stoppable nonzero d (omega (arith, before, room))
            (omega (arith, before)),
      )

  rests_at : (at k).count_with_carry ≡ stop → stop < 2 ^ c.width → (m : ℕ) → at (m + k) ≡ at k
  rests_at e fits zero = ap at (omega arith)
  rests_at e fits (suc m) =
      ap at {x = suc m + k} {y = suc (m + k)} (omega arith)
      ∙ ap (step c (counting start stop size)) (rests_at e fits m)
      ∙ rests c start stop size (at k) stoppable nonzero e fits

  -- A counter with a stop value that is k steps from its first count, inside the range, passes
  -- through the counts in between, one a cycle, raises `done` exactly at the k-th, and
  -- then keeps its state for ever. `carry` stays low.
  pub stops_up :
      c.direction ≡ up
      → stop ≡ s.count_with_carry + k * size
      → stop < 2 ^ c.width
      → ((n : ℕ)
          → n ≤ k
          → (count c (at n) ≡ s.count_with_carry + n * size)
            × (carry c (at n) ≡ false)
            × (done c stop (at n) ≡ (n == k)))
        × ((m : ℕ) → at (m + k) ≡ at k)
  unfolding done count carry
  stops_up d e fits = (passes, rests_at (rises d e fits k (omega arith) ∙ sym e) fits)
    where
      passes :
          (n : ℕ)
          → n ≤ k
          → (count c (at n) ≡ s.count_with_carry + n * size)
            × (carry c (at n) ≡ false)
            × (done c stop (at n) ≡ (n == k))
      passes n h =
          let (now, low, test) =
            shows c stop (s.count_with_carry + n * size) (at n) stoppable (rises d e fits n h)
              (omega (arith, scaled_le n k size h)) in
          (
            now,
            low,
            test
                ∙ same_test _ stop n k (λ l. omega (arith, scaled-lt n k size nonzero l))
                    (λ m. ap (λ j. s.count_with_carry + j * size) m ∙ sym e) h,
          )

  -- The same for a counter that counts down to a stop value k steps below its first count.
  pub stops_down :
      c.direction ≡ down
      → s.count_with_carry ≡ stop + k * size
      → s.count_with_carry < 2 ^ c.width
      → ((n : ℕ)
          → n ≤ k
          → (count c (at n) + n * size ≡ s.count_with_carry)
            × (carry c (at n) ≡ false)
            × (done c stop (at n) ≡ (n == k)))
        × ((m : ℕ) → at (m + k) ≡ at k)
  stops_down d e fits =
      (passes, rests_at (omega (arith, falls d e fits k (omega arith))) (omega arith))
    where
      passes :
          (n : ℕ)
          → n ≤ k
          → (count c (at n) + n * size ≡ s.count_with_carry)
            × (carry c (at n) ≡ false)
            × (done c stop (at n) ≡ (n == k))
      passes n h =
          let there = falls d e fits n h in
          let (now, low, test) =
            shows c stop (at n).count_with_carry (at n) stoppable refl (omega (arith, there)) in
          (
            omega (arith, now, there),
            low,
            test
                ∙ same_test _ stop n k (λ l. omega (arith, there, scaled-lt n k size nonzero l))
                    (λ m. omega (arith, there, ap (λ j. j * size) m)) h,
          )

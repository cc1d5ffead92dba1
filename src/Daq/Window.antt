-- ===== src/Daq/Window.antt =====
-- What the DAQ has computed when a window of samples ends.
use pypga.Base.{
  ℕ, suc, ◌+◌, ◌^◌, ◌<◌, ◌≡◌, refl, ap, sym, ◌∙◌, Bool, true, false, ◌&&◌, List, [], ◌∷◌, map, All,
  arith, ltb, if◌then◌else◌, length,
}
use native.Mathlib.Nat.{mod-eq_of_lt, mod-add-mod}
use pypga.Base.Circuit.{run, wrap, two-pow-pos, to_ℕ}
use pypga.Daq.{Config, State, Input, step}

-- The settings while a window lasts.
pub record Setting : Type 0 where
  pub edge_threshold : ℕ
  pub inverse_factor : ℕ
  pub reduce_mode : ℕ
  pub offset : ℕ

abbrev pub sample : Setting → Bool → ℕ → Input
sample e pulse x = record {
  input = x;
  edge_threshold = e.edge_threshold;
  inverse_factor = e.inverse_factor;
  reduce_mode = e.reduce_mode;
  offset = e.offset;
  out = pulse;
  burst_busy = true;
}

abbrev pub sum : ℕ → List ℕ → ℕ
sum a [] = a
sum a (x ∷ xs) = sum (a + x) xs

abbrev pub largest : ℕ → List ℕ → ℕ
largest m [] = m
largest m (x ∷ xs) = largest (if ltb m x then x else m) xs

abbrev pub least : ℕ → List ℕ → ℕ
least m [] = m
least m (x ∷ xs) = least (if ltb x m then x else m) xs

-- The rises: a sample below the threshold, and one above it straight behind.
abbrev pub rises : ℕ → ℕ → ℕ → List ℕ → ℕ
rises t n a [] = n
rises t n a (x ∷ xs) = rises t (n + to_ℕ (ltb a t && ltb t x)) x xs

-- The samples behind the one of the pulse.
abbrev pub after : Config → Setting → List ℕ → State → State
after c e xs s = run (step c) (map (sample e false) xs) s

wrapped_add : (w a total x : ℕ) → a ≡ wrap w total → wrap w (a + x) ≡ wrap w (total + x)
wrapped_add w a total x h = rw (h) (mod-add-mod total (2 ^ w) x)

counted :
    (b : Bool) (w v n : ℕ) → v ≡ wrap w n → (if b then wrap w (v + 1) else v) ≡ wrap w (n + to_ℕ b)
counted true w v n h = wrapped_add w v n 1 h
counted false w v n h = h ∙ ap (wrap w) {x = n} {y = n + 0} (omega arith)

module _ (c : Config) (e : Setting) where
  sumvalue-after :
      (xs : List ℕ) (s : State) (total : ℕ)
      → s.sumvalue ≡ wrap (c.data_width + c.max_samples_in_bits) total
      → (after c e xs s).sumvalue ≡ wrap (c.data_width + c.max_samples_in_bits) (sum total xs)
  unfolding step
  sumvalue-after [] s total h = h
  sumvalue-after (x ∷ xs) s total h =
      sumvalue-after xs (step c (sample e false x) s) (total + x)
        (wrapped_add (c.data_width + c.max_samples_in_bits) s.sumvalue total x h)

  count-after :
      (xs : List ℕ) (s : State) (n : ℕ)
      → s.count ≡ wrap c.max_samples_in_bits n
      → (after c e xs s).count ≡ wrap c.max_samples_in_bits (n + length xs)
  unfolding step
  count-after [] s n h = h ∙ ap (wrap c.max_samples_in_bits) {x = n} {y = n + 0} (omega arith)
  count-after (x ∷ xs) s n h =
      count-after xs (step c (sample e false x) s) (n + 1)
        (wrapped_add c.max_samples_in_bits s.count n 1 h)
      ∙ ap (wrap c.max_samples_in_bits) {x = n + 1 + length xs} {y = n + suc (length xs)}
          (omega arith)

  value_max-after :
      (xs : List ℕ) (s : State)
      → All (λ x. x < 2 ^ c.data_width) xs
      → (after c e xs s).value_max ≡ largest s.value_max xs
  unfolding step
  value_max-after [] s h = refl
  value_max-after (x ∷ xs) s h =
      value_max-after xs (step c (sample e false x) s) h.1
      ∙ ap (λ y. largest (if ltb s.value_max x then y else s.value_max) xs) (mod-eq_of_lt h.0)

  value_min-after :
      (xs : List ℕ) (s : State)
      → All (λ x. x < 2 ^ c.data_width) xs
      → (after c e xs s).value_min ≡ least s.value_min xs
  unfolding step
  value_min-after [] s h = refl
  value_min-after (x ∷ xs) s h =
      value_min-after xs (step c (sample e false x) s) h.1
      ∙ ap (λ y. least (if ltb x s.value_min then y else s.value_min) xs) (mod-eq_of_lt h.0)

  edge_count-after :
      (xs : List ℕ) (s : State) (a n : ℕ)
      → s.not_above_threshold ≡ ltb a e.edge_threshold
      → s.edge_count ≡ wrap 22 n
      → (after c e xs s).edge_count ≡ wrap 22 (rises e.edge_threshold n a xs)
  unfolding step
  edge_count-after [] s a n h k = k
  edge_count-after (x ∷ xs) s a n h k =
      edge_count-after xs (step c (sample e false x) s) x
        (n + to_ℕ (ltb a e.edge_threshold && ltb e.edge_threshold x)) refl
        (rw (h) (counted (ltb a e.edge_threshold && ltb e.edge_threshold x) 22 s.edge_count n k))

-- What the DAQ holds once it has seen a pulse with a first sample and then the samples behind it,
-- whatever it held before: the sum of all of them and the number of those behind the first, modulo
-- the widths, the largest and the least of all, and the number of rises through the threshold, each
-- from a sample below it to one above it straight behind, modulo 2 ^ 22. The samples have the width
-- of the data.
pub window_lem :
    (c : Config) (e : Setting) (x : ℕ) (xs : List ℕ) (s : State)
    → x < 2 ^ c.data_width
    → All (λ y. y < 2 ^ c.data_width) xs
    → let t : State = after c e xs (step c (sample e true x) s) in
      (t.sumvalue ≡ wrap (c.data_width + c.max_samples_in_bits) (sum x xs))
      × (t.count ≡ wrap c.max_samples_in_bits (length xs))
      × (t.value_max ≡ largest x xs)
      × (t.value_min ≡ least x xs)
      × (t.edge_count ≡ wrap 22 (rises e.edge_threshold 0 x xs))
unfolding step
window_lem c e x xs s h hs =
    let s' : State = step c (sample e true x) s in
    (
      sumvalue-after c e xs s' x refl,
      count-after c e xs s' 0 (sym (mod-eq_of_lt (two-pow-pos c.max_samples_in_bits)))
          ∙ ap (wrap c.max_samples_in_bits) {x = 0 + length xs} {y = length xs} (omega arith),
      value_max-after c e xs s' hs ∙ ap (λ y. largest y xs) (mod-eq_of_lt h),
      value_min-after c e xs s' hs ∙ ap (λ y. least y xs) (mod-eq_of_lt h),
      edge_count-after c e xs s' x 0 refl refl,
    )

-- ===== src/Dac/Bus.antt =====
-- What the pins of the converter carry in the two halves of a cycle.
use pypga.Base.{
  ℕ, zero, suc, ◌-◌, ◌^◌, ◌≡◌, refl, ap, ◌∙◌, Bool, true, false, List, [], ◌∷◌, ◌++◌, map, length,
  get_or, arith,
}
use mathlib.Core.Path.{ap₂}
use pypga.Base.Circuit.{run, run-append}
use pypga.Base.Int.{pos, ◌-ℤ◌}
use pypga.Base.Vectors.{unsigned, signed, fit, fit-whole}
use pypga.Dac.{
  State, Halves, Pins, converted, dac_settings, example_step, power_on, range_from, pins,
}
use pypga.Dac.Slope.{length-converted, converted-value}

-- A cell out of reset puts out D1 in the first half of the cycle and D2 in the second.
abbrev pub PassesOn : (Bool → Bool → Bool → Halves) → Type 0
PassesOn oddr = (d₁ d₂ : Bool) → oddr d₁ d₂ false ≡ (d₁, d₂)

abbrev pub first_half : List Halves → List Bool
first_half hs = map (λ h. h.0) hs

abbrev pub second_half : List Halves → List Bool
second_half hs = map (λ h. h.1) hs

-- The settings of a cycle.
abbrev pub Settings : Type 0
Settings = List Bool × List Bool

-- Counting from one on is reading behind the head.
map-range_from :
    (f : ℕ → Halves) (i n : ℕ)
    → map f (range_from (suc i) n) ≡ map (λ k. f (suc k)) (range_from i n)
map-range_from f i zero = refl
map-range_from f i (suc n) = ap (λ l. f (suc i) ∷ l) (map-range_from f (suc i) n)

-- The bits of two words by their indices are the words.
by_index :
    (n : ℕ) (a b : List Bool)
    → length a ≡ n
    → length b ≡ n
    → let hs : List Halves = map (λ i. (get_or b i false, get_or a i false)) (range_from 0 n) in
      (first_half hs ≡ b) × (second_half hs ≡ a)
by_index zero [] [] h k = (refl, refl)
by_index zero [] (y ∷ b) h k = absurd (omega arith)
by_index zero (x ∷ a) b h k = absurd (omega arith)
by_index (suc n) [] b h k = absurd (omega arith)
by_index (suc n) (x ∷ a) [] h k = absurd (omega arith)
by_index (suc n) (x ∷ a) (y ∷ b) h k =
    let both = by_index n a b (omega arith) (omega arith) in
    let behind = map-range_from (λ i. (get_or (y ∷ b) i false, get_or (x ∷ a) i false)) 0 n in
    (
      ap (λ hs. y ∷ first_half hs) behind ∙ ap (λ l. y ∷ l) both.0,
      ap (λ hs. x ∷ second_half hs) behind ∙ ap (λ l. x ∷ l) both.1,
    )

cells :
    (oddr : Bool → Bool → Bool → Halves) (passes : PassesOn oddr) (s : State) (is : List ℕ)
    → s.dac_rst ≡ false
    → map (λ i. oddr (get_or s.dac_dat_b i false) (get_or s.dac_dat_a i false) s.dac_rst) is
      ≡ map (λ i. (get_or s.dac_dat_b i false, get_or s.dac_dat_a i false)) is
cells oddr passes s [] h = refl
cells oddr passes s (i ∷ is) h =
    ap₂ ◌∷◌ (rw h (passes (get_or s.dac_dat_b i false) (get_or s.dac_dat_a i false)))
      (cells oddr passes s is h)

never_reset :
    (bits : ℕ) (is : List Settings) (s : State)
    → s.dac_rst ≡ false
    → (run (example_step bits) is s).dac_rst ≡ false
unfolding example_step dac_settings
never_reset bits [] s h = h
never_reset bits ((x, y) ∷ is) s h = never_reset bits is (example_step bits (x, y) s) h

-- While the converter is out of reset, the pin `sel` is high in the first half of a cycle and low
-- in the second, the bus carries the word for channel 2 in the first half and the one for channel 1
-- in the second, and `rst` is low. The cells are as documented, and there is a data pin for each
-- bit.
pub bus_lem :
    (oddr : Bool → Bool → Bool → Halves) (n : ℕ) (s : State)
    → PassesOn oddr
    → s.dac_rst ≡ false
    → length s.dac_dat_a ≡ n
    → length s.dac_dat_b ≡ n
    → let p : Pins = pins oddr n s in
      (p.sel ≡ (true, false))
      × (p.rst ≡ (false, false))
      × (first_half p.bus ≡ s.dac_dat_b)
      × (second_half p.bus ≡ s.dac_dat_a)
unfolding pins
bus_lem oddr n s passes h a b =
    let words = by_index n s.dac_dat_a s.dac_dat_b a b in
    let same = cells oddr passes s (range_from 0 n) h in
    (
      rw h (passes true false),
      rw h (passes false false),
      ap first_half same ∙ words.0,
      ap second_half same ∙ words.1,
    )

-- A word that fits is converted as it is.
pub word_lem : (n : ℕ) (x : List Bool) → length x ≡ n → fit n (converted (fit n x)) ≡ converted x
word_lem n x h = rw (fit-whole n x h) (fit-whole n (converted x) (length-converted x ∙ h))

two_cycles :
    (oddr : Bool → Bool → Bool → Halves) (n : ℕ) (out1 out2 : List Bool) (after : Settings)
    (s : State)
    → PassesOn oddr
    → length out1 ≡ suc n
    → length out2 ≡ suc n
    → s.dac_rst ≡ false
    → let p : Pins = pins oddr (suc n) (run (example_step (suc n)) ((out1, out2) ∷ after ∷ []) s) in
      (p.sel ≡ (true, false))
      × (pos (unsigned (first_half p.bus)) ≡ pos (2 ^ n - 1) -ℤ signed out2)
      × (pos (unsigned (second_half p.bus)) ≡ pos (2 ^ n - 1) -ℤ signed out1)
unfolding example_step dac_settings
two_cycles oddr n out1 out2 (x, y) s passes h k reset =
    let t : State = run (example_step (suc n)) ((out1, out2) ∷ (x, y) ∷ []) s in
    let a : t.dac_dat_a ≡ converted out1 = word_lem (suc n) out1 h in
    let b : t.dac_dat_b ≡ converted out2 = word_lem (suc n) out2 k in
    let (sel, rst, first, second) =
      bus_lem oddr (suc n) t passes reset (ap length a ∙ length-converted out1 ∙ h)
        (ap length b ∙ length-converted out2 ∙ k) in
    (
      sel,
      ap (λ w. pos (unsigned w)) (first ∙ b) ∙ converted-value n out2 k,
      ap (λ w. pos (unsigned w)) (second ∙ a) ∙ converted-value n out1 h,
    )

-- Whatever was set before, the settings of a cycle are on the bus after the next cycle: at 2 ^ n -
-- 1 - v for the value v, that of `out2` while `sel` is high and that of `out1` while it is low. The
-- cells are as documented, and the settings, the registers and the bus have n + 1 bits.
pub settings_played :
    (oddr : Bool → Bool → Bool → Halves) (n : ℕ) (before : List Settings) (out1 out2 : List Bool)
    (after : Settings)
    → PassesOn oddr
    → length out1 ≡ suc n
    → length out2 ≡ suc n
    → let p : Pins =
        pins oddr
          (suc n)
          (run (example_step (suc n)) (before ++ ((out1, out2) ∷ after ∷ [])) (power_on (suc n))) in
      (p.sel ≡ (true, false))
      × (pos (unsigned (first_half p.bus)) ≡ pos (2 ^ n - 1) -ℤ signed out2)
      × (pos (unsigned (second_half p.bus)) ≡ pos (2 ^ n - 1) -ℤ signed out1)
unfolding power_on
settings_played oddr n before out1 out2 after passes h k =
    rw (run-append (example_step (suc n)) before ((out1, out2) ∷ after ∷ []) (power_on (suc n))) (
      two_cycles oddr n out1 out2 after (run (example_step (suc n)) before (power_on (suc n)))
        passes h k (never_reset (suc n) before (power_on (suc n)) refl))

-- ===== src/Daq/Sampling/Seen.antt =====
-- What the logic of the DAQ is given in the cycles of a burst, and what it makes of the windows.
use pypga.Base.{
  ℕ, zero, suc, ◌+◌, ◌*◌, ◌^◌, ◌≤◌, ◌<◌, ◌≡◌, refl, sym, ap, ◌∙◌, Bool, true, false, List, [], ◌∷◌,
  ◌++◌, map, length, replicate, All, arith, length-append, length-replicate, take, drop,
  take-append-drop, length-take,
}
use native.Mathlib.Nat.{suc-mul}
use mathlib.Core.List.{append-nil, append_assoc}
use pypga.Base.Circuit.{run, run-append, trace, wrap_sub}
use pypga.PulseBurst
use pypga.PulseBurst.Spec.{Outputs, outputs, input}
use pypga.PulseBurst.Timing.{commands, pulses_below, burst_from_rest}
use pypga.Daq
use pypga.Daq.Window.{Setting, sample, after}
use pypga.Daq.Sampling.{Config, State, Cycle, any_trigger, logic_input, step}

-- A sample with the two triggers of its cycle.
abbrev pub Sample : Type 0
Sample = ℕ × Bool × Bool

abbrev pub values : List Sample → List ℕ
values xs = map (λ x. x.0) xs

-- A cycle under settings that stay.
abbrev pub cycle : Setting → ℕ → ℕ → Sample → Cycle
cycle e len period (x, trigger, software_trigger) = record {
  trigger = trigger;
  software_trigger = software_trigger;
  sample = x;
  length_ = len;
  sampling_period_cycles = period;
  edge_threshold = e.edge_threshold;
  inverse_factor = e.inverse_factor;
  reduce_mode = e.reduce_mode;
  offset = e.offset;
}

abbrev pub triggered : Sample → Bool
triggered x =
    any_trigger
      (cycle (record { edge_threshold = 0; inverse_factor = 0; reduce_mode = 0; offset = 0 }) 0 0 x)

-- What the logic is given, for the outputs of the generator in the cycles.
abbrev pub seen_by : Setting → List Outputs → List Sample → List Daq.Input
seen_by e [] xs = []
seen_by e (o ∷ os) [] = []
seen_by e ((out, active, k) ∷ os) (x ∷ xs) =
    logic_input (cycle e 0 0 x) out active ∷ seen_by e os xs

module _ (c : Config) (e : Setting) (len period : ℕ) where
  abbrev pub bursts : List Sample → PulseBurst.State → List Outputs
  bursts xs s =
      trace outputs
        (λ i. PulseBurst.step c.burst (input (wrap_sub c.burst.count_width len 1) period i))
        (commands (map triggered xs)) s

  pub logic-run :
      (xs : List Sample) (s : State)
      → (run (step c) (map (cycle e len period) xs) s).logic
        ≡ run
            (Daq.step c.logic)
            (seen_by e (outputs s.pulseburst ∷ bursts xs s.pulseburst) xs)
            s.logic
  unfolding step any_trigger
  logic-run [] s = refl
  logic-run (x ∷ xs) s = logic-run xs (step c (cycle e len period x) s)

-- A list of outputs that goes on shows the same to the first cycles.
seen_by-append :
    (e : Setting) (os more : List Outputs) (xs : List Sample)
    → length xs ≤ length os
    → seen_by e (os ++ more) xs ≡ seen_by e os xs
seen_by-append e [] [] [] h = refl
seen_by-append e [] (m ∷ more) [] h = refl
seen_by-append e [] more (x ∷ xs) h = absurd (omega arith)
seen_by-append e ((out, active, k) ∷ os) more [] h = refl
seen_by-append e ((out, active, k) ∷ os) more (x ∷ xs) h =
    ap (λ l. logic_input (cycle e 0 0 x) out active ∷ l) (seen_by-append e os more xs (omega arith))

-- Low cycles of a burst.
low_cycles :
    (e : Setting) (n k : ℕ) (xs rest : List Sample) (os : List Outputs)
    → length xs ≡ n
    → seen_by e (replicate n (false, true, k) ++ os) (xs ++ rest)
      ≡ map (sample e false) (values xs) ++ seen_by e os rest
low_cycles e zero k [] rest os h = refl
low_cycles e zero k (x ∷ xs) rest os h = absurd (omega arith)
low_cycles e (suc n) k [] rest os h = absurd (omega arith)
low_cycles e (suc n) k (x ∷ xs) rest os h =
    ap (λ l. sample e false x.0 ∷ l) (low_cycles e n k xs rest os (omega arith))

-- A window of samples: the one of the pulse, and those behind it.
abbrev pub Window : Type 0
Window = Sample × List Sample

abbrev pub flatten : List Window → List Sample
flatten [] = []
flatten ((x, xs) ∷ ws) = x ∷ (xs ++ flatten ws)

abbrev pub Long : ℕ → Window → Type 0
Long period (x, xs) = length xs ≡ suc period

seen_nothing : (e : Setting) (os : List Outputs) → seen_by e os [] ≡ []
seen_nothing e [] = refl
seen_nothing e ((out, active, k) ∷ os) = refl

one_window :
    (e : Setting) (period m : ℕ) (x : Sample) (xs rest : List Sample)
    → length xs ≡ suc period
    → seen_by e (pulses_below period (suc m)) (x ∷ (xs ++ rest))
      ≡ (sample e true x.0 ∷ map (sample e false) (values xs))
        ++ seen_by e (pulses_below period m) rest
one_window e period m x xs rest h =
    ap (λ l. sample e true x.0 ∷ l) (low_cycles e (suc period) m xs rest (pulses_below period m) h)

-- Whatever windows came before, the last one decides.
pub last_window :
    (c : Daq.Config) (e : Setting) (period m : ℕ) (ws : List Window) (x : Sample) (xs : List Sample)
    (s : Daq.State)
    → All (Long period) ws
    → length xs ≡ suc period
    → length ws ≤ m
    → (l : Daq.State) × (run
          (Daq.step c)
          (seen_by e (pulses_below period (suc m)) (flatten ws ++ (x ∷ xs)))
          s
        ≡ after c e (values xs) (Daq.step c (sample e true x.0) l))
last_window c e period m [] x xs s all_long h fits = (
  s,
  ap (λ r. run (Daq.step c) (seen_by e (pulses_below period (suc m)) (x ∷ r)) s)
        (sym (append-nil xs))
      ∙ ap (λ is. run (Daq.step c) is s)
          (one_window e period m x xs [] h
            ∙ ap (λ l. sample e true x.0 ∷ (map (sample e false) (values xs) ++ l))
                (seen_nothing e (pulses_below period m))
            ∙ append-nil (sample e true x.0 ∷ map (sample e false) (values xs))),
)
last_window c e period zero (w ∷ ws) x xs s all_long h fits = absurd (omega arith)
last_window c e period (suc m) ((y, ys) ∷ ws) x xs s all_long h fits =
    let first : List Daq.Input = sample e true y.0 ∷ map (sample e false) (values ys) in
    let behind : List Sample = flatten ws ++ (x ∷ xs) in
    let (l, ends) =
      last_window c e period m ws x xs (run (Daq.step c) first s) all_long.1 h (omega arith) in
    (
      l,
      ap (λ r. run (Daq.step c) (seen_by e (pulses_below period (suc (suc m))) (y ∷ r)) s)
            (append_assoc ys (flatten ws) (x ∷ xs))
          ∙ ap (λ is. run (Daq.step c) is s) (one_window e period (suc m) y ys behind all_long.0)
          ∙ run-append (Daq.step c) first (seen_by e (pulses_below period (suc m)) behind) s
          ∙ ends,
    )

pub length-flatten :
    (period : ℕ) (ws : List Window)
    → All (Long period) ws
    → length (flatten ws) ≡ length ws * (period + 2)
length-flatten period [] h = omega arith
length-flatten period ((x, xs) ∷ ws) (h, hs) = omega (
  arith,
  length-append xs (flatten ws),
  length-flatten period ws hs,
  suc-mul (length ws) (period + 2),
)

pub length-pulses_below : (period k : ℕ) → length (pulses_below period k) ≡ k * (period + 2)
length-pulses_below period zero = omega arith
length-pulses_below period (suc k) = omega (
  arith,
  length-append (replicate period (false, true, k)) (pulses_below period k),
  length-replicate {A = Outputs} period (false, true, k),
  length-pulses_below period k,
  suc-mul k (period + 2),
)

module _ (w : PulseBurst.Config) (pulses period : ℕ) where
  abbrev pub traced : List Bool → PulseBurst.State → List Outputs
  traced bs s = trace outputs (λ i. PulseBurst.step w (input pulses period i)) (commands bs) s

  pub length-traced : (bs : List Bool) (s : PulseBurst.State) → length (traced bs s) ≡ length bs
  length-traced [] s = refl
  length-traced (b ∷ bs) s =
      ap suc (length-traced bs (PulseBurst.step w (input pulses period (b, false)) s))

  -- More cycles behind change nothing before.
  traced-append :
      (bs cs : List Bool) (s : PulseBurst.State)
      → (more : List Outputs) × (traced (bs ++ cs) s ≡ traced bs s ++ more)
  traced-append [] cs s = (traced cs s, refl)
  traced-append (b ∷ bs) cs s =
      let next : PulseBurst.State = PulseBurst.step w (input pulses period (b, false)) s in
      let (more, e) = traced-append bs cs next in (more, ap (λ l. outputs next ∷ l) e)

  -- The outputs up to the end of the burst, and some behind.
  pub burst_first :
      (ts : List Bool)
      → pulses < 2 ^ w.count_width
      → period < 2 ^ w.width
      → 1 ≤ period
      → (more later : List Outputs) × (traced (true ∷ ts) (PulseBurst.start w period) ++ more
          ≡ pulses_below period (suc pulses) ++ later)
  burst_first ts fits timed some_period =
      let size : ℕ = suc period + pulses * (period + 2) in
      let padded : List Bool = ts ++ replicate size false in
      let (more, e) =
        traced-append (true ∷ ts) (replicate size false) (PulseBurst.start w period) in
      let (later, d) =
        traced-append (true ∷ take size padded) (drop size padded) (PulseBurst.start w period) in
      (
        more,
        later,
        sym e
            ∙ ap (λ bs. traced (true ∷ bs) (PulseBurst.start w period))
                (sym (take-append-drop size padded))
            ∙ d
            ∙ ap (λ l. l ++ later)
                (burst_from_rest w pulses period fits timed (take size padded) some_period (
                  omega (
                    arith,
                    length-take size padded,
                    length-append ts (replicate size false),
                    length-replicate size false,
                  ))),
      )

-- Lists of outputs that begin alike show the same.
pub seen_alike :
    (e : Setting) (as_ bs more later : List Outputs) (xs : List Sample)
    → as_ ++ more ≡ bs ++ later
    → length xs ≤ length as_
    → length xs ≤ length bs
    → seen_by e as_ xs ≡ seen_by e bs xs
seen_alike e as_ bs more later xs alike h k =
    sym (seen_by-append e as_ more xs h)
    ∙ ap (λ os. seen_by e os xs) alike
    ∙ seen_by-append e bs later xs k

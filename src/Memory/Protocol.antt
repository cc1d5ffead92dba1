-- ===== src/Memory/Protocol.antt =====
-- The logic of a register array implements the array that the processor sees.
use pypga.Base.{
  ℕ, zero, suc, ◌+◌, ◌*◌, ◌/◌, ◌%◌, ◌^◌, ◌<◌, ◌≡◌, refl, false, List, [], ◌∷◌, ◌++◌, arith, All,
  inl, inr, ◌⊎◌,
}
use pypga.Base.Circuit.{run, run-append}
use pypga.Memory.{Config, State, Input, step}
use pypga.Memory.Cycles.{
  Quiet, Settled, strobe, select_lem, store_lem, odd_index, halved, even_value, halved_value,
}
use pypga.Memory.Indexed.{Array, store}

-- A write of the processor and the cycles up to the next one, of which there are three or more.
pub record Write : Type 0 where
  pub value : ℕ
  pub first : Input
  pub second : Input
  pub third : Input
  pub later : List Input

abbrev pub Spaced : Write → Type 0
Spaced w = Quiet w.first × Quiet w.second × Quiet w.third × All Quiet w.later

abbrev pub cycles_of : Write → List Input
cycles_of w = strobe w.value ∷ w.first ∷ w.second ∷ w.third ∷ w.later

-- An index is one of the memory, and a word has the width of the memory.
abbrev pub Sized : Config → Write → Type 0
Sized c w =
    (w.value % 2 ≡ 1 → w.value / 2 < 2 ^ c.adr_width)
    × (w.value % 2 ≡ 0 → w.value / 2 < 2 ^ c.width)

-- The array that a settled state shows.
abbrev pub Shows : State → Array → Type 0
Shows s a = Settled s × (s.memory ≡ a.words) × (s.ps_adr ≡ a.index)

Quiet-Shows :
    (c : Config) (q : Input) (s : State) (a : Array) → Quiet q → Shows s a → Shows (step c q s) a
unfolding step
Quiet-Shows c q s a h shows = ground arith

All-Quiet :
    (c : Config) (qs : List Input) (s : State) (a : Array)
    → All Quiet qs
    → Shows s a
    → Shows (run (step c) qs s) a
All-Quiet c [] s a h shows = shows
All-Quiet c (q ∷ qs) s a h shows = All-Quiet c qs (step c q s) a h.1 (Quiet-Shows c q s a h.0 shows)

even_or_odd : (v : ℕ) → ((i : ℕ) × (v ≡ i * 2 + 1)) ⊎ ((i : ℕ) × (v ≡ i * 2))
even_or_odd zero = inr (0, refl)
even_or_odd (suc v) = elim (even_or_odd v) [
  | inl (i, e) ↦ inr (suc i, omega (arith, e))
  | inr (i, e) ↦ inl (i, omega (arith, e))
]

-- An access to the array, with the reads of the state in between left out.
select-Shows :
    (c : Config) (i : ℕ) (q₁ q₂ q₃ : Input) (s : State) (a : Array)
    → i < 2 ^ c.adr_width
    → Quiet q₁
    → Quiet q₂
    → Quiet q₃
    → Shows s a
    → Shows
        (step c q₃ (step c q₂ (step c q₁ (step c (strobe (i * 2 + 1)) s))))
        (store 0 (i * 2 + 1) a)
select-Shows c i q₁ q₂ q₃ s a h x y z (settled, words, index) =
    let p = select_lem c i s q₁ q₂ q₃ h settled x y z in
    ground (arith, p.4, p.5, p.6, words, odd_index i, halved i)

store-Shows :
    (c : Config) (v : ℕ) (q₁ q₂ q₃ : Input) (s : State) (a : Array)
    → c.readonly ≡ false
    → v < 2 ^ c.width
    → Quiet q₁
    → Quiet q₂
    → Quiet q₃
    → Shows s a
    → Shows (step c q₃ (step c q₂ (step c q₁ (step c (strobe (v * 2)) s)))) (store 0 (v * 2) a)
store-Shows c v q₁ q₂ q₃ s a writable h x y z shows =
    Quiet-Shows c q₃ _ (store 0 (v * 2) a) z (Quiet-Shows c q₂ _ (store 0 (v * 2) a) y stored)
  where
    stored : Shows (step c q₁ (step c (strobe (v * 2)) s)) (store 0 (v * 2) a)
    stored =
        let p = store_lem c v s q₁ h shows.0 x in
        ground (arith, p.1, p.2, p.3, shows, even_value v, halved_value v)

write-Shows :
    (c : Config) (w : Write) (s : State) (a : Array)
    → c.readonly ≡ false
    → Spaced w
    → Sized c w
    → Shows s a
    → Shows (run (step c) (cycles_of w) s) (store 0 w.value a)
write-Shows c w s a writable (x, y, z, l) sized shows = elim (even_or_odd w.value) [
  | inl (i, e) ↦
      All-Quiet c w.later
        (step c w.third (step c w.second (step c w.first (step c (strobe w.value) s))))
        (store 0 w.value a) l
        (rw (e) (
          select-Shows c i w.first w.second w.third s a
            (omega (arith, e, sized.0 (omega (arith, e)))) x y z shows))
  | inr (v, e) ↦
      All-Quiet c w.later
        (step c w.third (step c w.second (step c w.first (step c (strobe w.value) s))))
        (store 0 w.value a) l
        (rw (e) (
          store-Shows c v w.first w.second w.third s a writable
            (omega (arith, e, sized.1 (omega (arith, e)))) x y z shows))
]

-- The array after the writes of the processor.
abbrev pub stored : List Write → Array → Array
stored [] a = a
stored (w ∷ ws) a = stored ws (store 0 w.value a)

abbrev pub all_cycles : List Write → List Input
all_cycles [] = []
all_cycles (w ∷ ws) = cycles_of w ++ all_cycles ws

-- Whatever the processor writes to the CSR of a register array, with three cycles or more in
-- between and in the sizes of the memory, the memory and its address are afterwards those of the
-- array to which the same words are written one by one; the logic has then settled. The register
-- can be written, and starts settled.
pub writes-Shows :
    (c : Config) (ws : List Write) (s : State) (a : Array)
    → c.readonly ≡ false
    → All Spaced ws
    → All (Sized c) ws
    → Shows s a
    → Shows (run (step c) (all_cycles ws) s) (stored ws a)
writes-Shows c [] s a writable spaced sized shows = shows
writes-Shows c (w ∷ ws) s a writable spaced sized shows =
    rw (run-append (step c) (cycles_of w) (all_cycles ws) s) (
      writes-Shows c ws (run (step c) (cycles_of w) s) (store 0 w.value a) writable spaced.1 sized.1
        (write-Shows c w s a writable spaced.0 sized.0 shows))

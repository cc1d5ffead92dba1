-- ===== src/Memory/Cycles.antt =====
-- A write of the processor to the CSR of a register array, cycle by cycle.
use pypga.Base.{
  ℕ, ◌+◌, ◌*◌, ◌/◌, ◌%◌, ◌^◌, ◌<◌, ◌≡◌, true, false, if◌then◌else◌, get_or, set, arith,
}
use native.Mathlib.Nat.{mod-eq_of_lt}
use pypga.Memory.{Config, State, Input, step, dat_w}

-- No write of the processor, and the logic lets the memory be.
abbrev pub Quiet : Input → Type 0
Quiet i = (i.re ≡ false) × (i.pl_we ≡ false)

-- Nothing of an earlier write is under way.
abbrev pub Settled : State → Type 0
Settled s = (s.ps_we ≡ false) × (s.pipeline_0 ≡ false) × (s.pipeline_1 ≡ false) × (s.csr_we ≡ false)

abbrev pub strobe : ℕ → Input
strobe v = record { storage = v; re = true; pl_adr = 0; pl_dat_w = 0; pl_we = false }

pub odd_index : (i : ℕ) → (i * 2 + 1) % 2 ≡ 1
odd_index i = omega arith

pub halved : (i : ℕ) → (i * 2 + 1) / 2 ≡ i
halved i = omega arith

-- Writing 2 i + 1 selects the index i: in the third cycle behind, and in none before, the CSR is
-- given the word at i to store; a cycle later the logic has settled, with the memory as it was. The
-- index is one of the memory, and the logic was settled before.
pub select_lem :
    (c : Config) (i : ℕ) (s : State) (q₁ q₂ q₃ : Input)
    → i < 2 ^ c.adr_width
    → Settled s
    → Quiet q₁
    → Quiet q₂
    → Quiet q₃
    → let s₁ : State = step c (strobe (i * 2 + 1)) s in
      let s₂ : State = step c q₁ s₁ in
      let s₃ : State = step c q₂ s₂ in
      let s₄ : State = step c q₃ s₃ in
      (s₁.csr_we ≡ false)
      × (s₂.csr_we ≡ false)
      × (s₃.csr_we ≡ true)
      × (dat_w s₃ ≡ get_or s.memory i 0)
      × Settled s₄
      × (s₄.ps_adr ≡ i)
      × (s₄.memory ≡ s.memory)
unfolding step dat_w
select_lem c i s q₁ q₂ q₃ h settled a b d = ground (arith, mod-eq_of_lt h, halved i, odd_index i)

pub even_value : (v : ℕ) → v * 2 % 2 ≡ 0
even_value v = omega arith

pub halved_value : (v : ℕ) → v * 2 / 2 ≡ v
halved_value v = omega arith

-- Writing 2 v, for a word v, to a settled register that can be written puts v into the memory at
-- the selected index, and a read-only one is left as it is; a cycle later the logic has settled,
-- with the same index, and meanwhile the CSR is given nothing to store.
pub store_lem :
    (c : Config) (v : ℕ) (s : State) (q₁ : Input)
    → v < 2 ^ c.width
    → Settled s
    → Quiet q₁
    → let s₁ : State = step c (strobe (v * 2)) s in
      let s₂ : State = step c q₁ s₁ in
      (s₁.csr_we ≡ false)
      × Settled s₂
      × (s₂.ps_adr ≡ s.ps_adr)
      × (s₂.memory ≡ (if c.readonly then s.memory else set s.memory s.ps_adr v))
unfolding step
store_lem c v s q₁ h settled a = ground (arith, mod-eq_of_lt h, halved_value v, even_value v)

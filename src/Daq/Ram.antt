-- ===== src/Daq/Ram.antt =====
-- The logic `_daq_data` of pypga/modules/daq.py for an AXI port: where a sample goes in the memory
-- of the processor.
use Prim.Native.Nat.{bit_and, bit_or}
use pypga.Base.{
  ℕ, ◌+◌, ◌-◌, ◌*◌, ◌^◌, ◌<◌, ◌≡◌, refl, ap, ap₂, ◌∙◌, ◌%◌, Bool, false, ◌&&◌, ltb, if◌then◌else◌,
  Option, none, some, List, [], ◌∷◌, ◌++◌, All, arith,
}
use native.Mathlib.Nat.{mod-eq_of_lt}
use pypga.Base.Circuit.{wrap}
use pypga.Base.Masks.{bit_or_disjoint, bit_and_mask}
use pypga.AxiWriter
use pypga.AxiWriter.Accepted.{address_taken, word_taken, both_valid}

-- The signals that the logic reads: those of the pulse generator, the value of the DAQ, and the
-- port.
pub record Source : Type 0 where
  pub pulse : Bool
  pub pulse_count : ℕ
  pub sample : ℕ
  pub aw_ready : Bool
  pub w_ready : Bool

pub record State : Type 0 where
  pub address : ℕ
  pub writer : AxiWriter.State

-- `none` is the `ValueError` of a port that the processor has not.
unfoldable pub base_address : ℕ → ℕ → Option ℕ
base_address ram_start hp_index =
    if ltb hp_index 4 then some (wrap 32 (ram_start + hp_index * 8388608)) else none

-- `ram_base_address | (ram_mask & Cat(Constant(0, 3), count, Constant(0, 32)))`
unfoldable pub ram_address : ℕ → ℕ → ℕ
ram_address base count = wrap 32 (bit_or base (bit_and (33554432 - 1) (count * 8)))

abbrev pub writer_input : Source → State → AxiWriter.Input
writer_input i s = record {
  address = s.address;
  data_ = i.sample;
  we = i.pulse;
  aw_ready = i.aw_ready;
  w_ready = i.w_ready;
}

-- One clock edge.
unfoldable pub step : ℕ → Source → State → State
unfolding ram_address AxiWriter.step
step base i s = record {
  address = ram_address base i.pulse_count;
  writer = AxiWriter.step (writer_input i s) s.writer;
}

base_address_lem :
    (n base : ℕ) → base_address 167772160 n ≡ some base → (n < 4) × (base ≡ (20 + n) * 8388608)
unfolding base_address
base_address_lem n base h = ground arith

-- With the start address that the DAQ has by default, the samples of port n below 4 have 8 bytes
-- each, from n times 8 MiB on: sample k of the first 2 ^ 20 stands behind k samples.
pub ram_address_lem :
    (n k base : ℕ)
    → base_address 167772160 n ≡ some base
    → k < 2 ^ 20
    → ram_address base k ≡ 167772160 + n * 8388608 + k * 8
unfolding base_address ram_address
ram_address_lem n k base h small =
    rw (bit_and_mask 25 (k * 8) (omega arith)) (omega (arith, where_from, added))
  where
    where_from : (n < 4) × (base ≡ (20 + n) * 8388608)
    where_from = base_address_lem n base h

    added : bit_or base (k * 8) ≡ (20 + n) * 8388608 + k * 8
    added =
        ap (λ b. bit_or b (k * 8)) where_from.1 ∙ bit_or_disjoint 23 (20 + n) (k * 8) (omega arith)

abbrev pub power_on : State
power_on = record { address = 0; writer = AxiWriter.power_on }

-- The addresses and the words that the port accepts in a run.
abbrev pub addresses_stored : ℕ → List Source → State → List ℕ
addresses_stored base [] s = []
addresses_stored base (i ∷ is) s =
    address_taken (writer_input i s) (AxiWriter.port (writer_input i s) s.writer)
    ++ addresses_stored base is (step base i s)

abbrev pub words_stored : ℕ → List Source → State → List ℕ
words_stored base [] s = []
words_stored base (i ∷ is) s =
    word_taken (writer_input i s) (AxiWriter.port (writer_input i s) s.writer)
    ++ words_stored base is (step base i s)

-- Behind a pulse with the count k, the address of sample k of port n, if the port is ready for an
-- address then.
abbrev pub sample_addresses : ℕ → Bool → ℕ → List Source → List ℕ
sample_addresses n pulse k [] = []
sample_addresses n pulse k (i ∷ is) =
    (if pulse && i.aw_ready then (167772160 + n * 8388608 + k * 8) ∷ [] else [])
    ++ sample_addresses n i.pulse i.pulse_count is

-- Behind a pulse, the sample of that cycle, if the port is ready for a word then.
abbrev pub samples : Bool → List Source → List ℕ
samples pulse [] = []
samples pulse (i ∷ is) =
    (if pulse && i.w_ready then i.sample % 2 ^ 64 ∷ [] else []) ++ samples i.pulse is

abbrev pub Counted : List Source → Type 0
Counted = All (λ i. i.pulse_count < 2 ^ 20)

abbrev behind : Bool → ℕ → State
behind b a = record { address = a; writer = record { aw_valid = b; w_valid = b } }

step-behind :
    (base a : ℕ) (b : Bool) (i : Source)
    → step base i (behind b a) ≡ behind i.pulse (ram_address base i.pulse_count)
unfolding step
step-behind base a b i =
    ap (λ (w : AxiWriter.State). record { address = ram_address base i.pulse_count; writer = w })
      (both_valid b (writer_input i (behind b a)))

address_taken-behind :
    (a : ℕ) (b : Bool) (i : Source)
    → a < 2 ^ 32
    → address_taken
        (writer_input i (behind b a))
        (AxiWriter.port (writer_input i (behind b a)) (behind b a).writer)
      ≡ (if b && i.aw_ready then a ∷ [] else [])
unfolding AxiWriter.port
address_taken-behind a b i small =
    ap (λ n. if b && i.aw_ready then n ∷ [] else []) (mod-eq_of_lt {n = a} {m = 4294967296} small)

addresses_behind :
    (n base : ℕ) (b : Bool) (k : ℕ) (is : List Source)
    → base_address 167772160 n ≡ some base
    → k < 2 ^ 20
    → Counted is
    → addresses_stored base is (behind b (167772160 + n * 8388608 + k * 8))
      ≡ sample_addresses n b k is
addresses_behind n base b k [] h small c = refl
addresses_behind n base b k (i ∷ is) h small c =
    ap₂ ◌++◌
      (address_taken-behind (167772160 + n * 8388608 + k * 8) b i
        (omega (arith, (base_address_lem n base h).0)))
      (ap (addresses_stored base is) (
          step-behind base (167772160 + n * 8388608 + k * 8) b i
          ∙ ap (behind i.pulse) (ram_address_lem n i.pulse_count base h c.0))
        ∙ addresses_behind n base i.pulse i.pulse_count is h c.0 c.1)

words_behind :
    (base a : ℕ) (b : Bool) (is : List Source) → words_stored base is (behind b a) ≡ samples b is
unfolding AxiWriter.port
words_behind base a b [] = refl
words_behind base a b (i ∷ is) = rw (step-behind base a b i) (
    ap (λ l. (if b && i.w_ready then i.sample % 2 ^ 64 ∷ [] else []) ++ l)
      (words_behind base (ram_address base i.pulse_count) i.pulse is))

-- From power-on, with the start address that the DAQ has by default and port n below 4, and counts
-- below 2 ^ 20: behind a pulse with the count k, if the port is ready for an address, it is given
-- that of the start, n times 8 MiB and k times 8 bytes; and if it is ready for a word, the sample of
-- that cycle. It is given nothing else.
pub samples_stored :
    (n base : ℕ) (is : List Source)
    → base_address 167772160 n ≡ some base
    → Counted is
    → (addresses_stored base is power_on ≡ sample_addresses n false 0 is)
      × (words_stored base is power_on ≡ samples false is)
unfolding AxiWriter.port
samples_stored n base [] h c = (refl, refl)
samples_stored n base (i ∷ is) h c = (
  ap (addresses_stored base is) (
        step-behind base 0 false i
        ∙ ap (behind i.pulse) (ram_address_lem n i.pulse_count base h c.0))
      ∙ addresses_behind n base i.pulse i.pulse_count is h c.0 c.1,
  words_behind base 0 false (i ∷ is),
)

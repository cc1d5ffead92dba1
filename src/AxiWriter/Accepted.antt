-- ===== src/AxiWriter/Accepted.antt =====
-- Which addresses and which words the port accepts. The two channels are independent.
use pypga.Base.{ℕ, ◌≡◌, refl, ap₂, Bool, false, ◌&&◌, if◌then◌else◌, List, [], ◌∷◌, ◌++◌, arith}
use pypga.Base.Circuit.{wrap}
use pypga.AxiWriter.{State, Input, Port, step, port, power_on}

-- What a channel takes in a cycle: it does if there is something valid and it is ready.
abbrev pub taken : Bool → Bool → ℕ → List ℕ
taken is_valid ready n = if is_valid && ready then n ∷ [] else []

abbrev pub address_taken : Input → Port → List ℕ
address_taken i p = taken p.aw_is_valid i.aw_ready p.aw_addr

abbrev pub word_taken : Input → Port → List ℕ
word_taken i p = taken p.w_is_valid i.w_ready p.w_data

-- The addresses and the words of a run.
abbrev pub addresses_taken : List Input → State → List ℕ
addresses_taken [] s = []
addresses_taken (i ∷ is) s = address_taken i (port i s) ++ addresses_taken is (step i s)

abbrev pub words_taken : List Input → State → List ℕ
words_taken [] s = []
words_taken (i ∷ is) s = word_taken i (port i s) ++ words_taken is (step i s)

-- The addresses of the cycles behind a request, with the address of that cycle, in which the port is
-- ready for an address; and in the same way the words.
abbrev pub asked_addresses : Bool → List Input → List ℕ
asked_addresses before [] = []
asked_addresses before (i ∷ is) =
    (if before && i.aw_ready then wrap 32 i.address ∷ [] else []) ++ asked_addresses i.we is

abbrev pub asked_words : Bool → List Input → List ℕ
asked_words before [] = []
asked_words before (i ∷ is) =
    (if before && i.w_ready then wrap 64 i.data_ ∷ [] else []) ++ asked_words i.we is

pub both_valid :
    (b : Bool) (i : Input)
    → step i (record { aw_valid = b; w_valid = b }) ≡ record { aw_valid = i.we; w_valid = i.we }
unfolding step
both_valid b i = ground arith

port-address :
    (b : Bool) (i : Input)
    → address_taken i (port i (record { aw_valid = b; w_valid = b }))
      ≡ (if b && i.aw_ready then wrap 32 i.address ∷ [] else [])
unfolding port
port-address b i = refl

port-word :
    (b : Bool) (i : Input)
    → word_taken i (port i (record { aw_valid = b; w_valid = b }))
      ≡ (if b && i.w_ready then wrap 64 i.data_ ∷ [] else [])
unfolding port
port-word b i = refl

addresses_from :
    (b : Bool) (is : List Input)
    → addresses_taken is (record { aw_valid = b; w_valid = b }) ≡ asked_addresses b is
addresses_from b [] = refl
addresses_from b (i ∷ is) =
    rw (both_valid b i) (ap₂ ◌++◌ (port-address b i) (addresses_from i.we is))

words_from :
    (b : Bool) (is : List Input)
    → words_taken is (record { aw_valid = b; w_valid = b }) ≡ asked_words b is
words_from b [] = refl
words_from b (i ∷ is) = rw (both_valid b i) (ap₂ ◌++◌ (port-word b i) (words_from i.we is))

-- From reset on, the addresses that the port accepts are those of the cycles behind a request in
-- which it is ready for an address, and the words those of the cycles behind a request in which it
-- is ready for a word. Neither is offered for longer, and either may be accepted without the other.
pub taken-asked :
    (is : List Input)
    → (addresses_taken is power_on ≡ asked_addresses false is)
      × (words_taken is power_on ≡ asked_words false is)
taken-asked is = (addresses_from false is, words_from false is)

-- ===== src/AxiWriter/Tests.antt =====
-- Two writes: the port is ready for both words, and for the second address only.
use pypga.Base.{ℕ, ◌+◌, ◌≡◌, refl, Bool, true, false, List, [], ◌∷◌}
use pypga.AxiWriter.{Input, power_on}
use pypga.AxiWriter.Accepted.{
  addresses_taken, words_taken, asked_addresses, asked_words, taken-asked,
}

abbrev cycle : ℕ → Bool → Bool → Input
cycle a w r = record { address = a; data_ = a + 1; we = w; aw_ready = r; w_ready = true }

abbrev inputs : List Input
inputs = cycle 8 true true ∷ cycle 16 true false ∷ cycle 24 false true ∷ []

one_address : asked_addresses false inputs ≡ 24 ∷ []
one_address = refl

two_words : asked_words false inputs ≡ 17 ∷ 25 ∷ []
two_words = refl

taken-asked_example :
    (addresses_taken inputs power_on ≡ asked_addresses false inputs)
    × (words_taken inputs power_on ≡ asked_words false inputs)
taken-asked_example = taken-asked inputs

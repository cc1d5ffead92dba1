-- ===== src/Wire/Codec.antt =====
-- Words survive their way over the wire.
use pypga.Base.{ℕ, ◌*◌, ◌/◌, ◌^◌, ◌<◌, ◌≡◌, refl, ap₂, List, [], ◌∷◌, arith, All, length}
use pypga.Wire.{word_of, byte, to_bytes, from_buffer}

abbrev pub Words : List ℕ → Type 0
Words = All (λ v. v < 2 ^ 32)

pub word_of-byte :
    (v : ℕ)
    → v < 2 ^ 32
    → word_of (byte v) (byte (v / 256)) (byte (v / 65536)) (byte (v / 16777216)) ≡ v
unfolding word_of
word_of-byte v h = omega arith

-- A list of 32-bit words is read back from its bytes, of which there are four to a word.
pub from_buffer-to_bytes :
    (vs : List ℕ)
    → Words vs
    → (from_buffer (to_bytes vs) ≡ vs) × (length (to_bytes vs) ≡ 4 * length vs)
unfolding to_bytes from_buffer
from_buffer-to_bytes [] h = (refl, omega arith)
from_buffer-to_bytes (v ∷ vs) h =
    let (same, size) = from_buffer-to_bytes vs h.1 in
    (ap₂ ◌∷◌ (unfold word_of in word_of-byte v h.0) same, omega (arith, size))

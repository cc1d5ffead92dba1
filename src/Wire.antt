-- ===== src/Wire.antt =====
-- The bytes that pypga/core/interface/remote/client.py and server/server.c exchange: eight bytes of
-- header, then words of four bytes, the low byte first.
pub mod Codec
use pypga.Base.{ℕ, zero, suc, ◌+◌, ◌*◌, ◌/◌, ◌%◌, List, [], ◌∷◌, ◌++◌}

abbrev pub byte : ℕ → ℕ
byte x = x % 256

-- `np.array(values, dtype=np.uint32).tobytes()`
unfoldable pub word_bytes : ℕ → List ℕ
word_bytes v = byte v ∷ byte (v / 256) ∷ byte (v / 65536) ∷ byte (v / 16777216) ∷ []

unfoldable pub to_bytes : List ℕ → List ℕ
unfolding word_bytes
to_bytes [] = []
to_bytes (v ∷ vs) = word_bytes v ++ to_bytes vs

unfoldable pub word_of : ℕ → ℕ → ℕ → ℕ → ℕ
word_of a b c d = a + b * 256 + c * 65536 + d * 16777216

-- `np.frombuffer(data, dtype=np.uint32)`; the bytes come in fours.
unfoldable pub from_buffer : List ℕ → List ℕ
unfolding word_of
from_buffer (a ∷ b ∷ c ∷ d ∷ rest) = word_of a b c d ∷ from_buffer rest
from_buffer _ = []

-- The header of `reads` and `writes`: command, a reserved byte, two bytes of length, the address.
unfoldable pub header : ℕ → ℕ → ℕ → List ℕ
header command length addr =
    command
    ∷ 0
    ∷ byte length
    ∷ byte (length / 256)
    ∷ byte addr
    ∷ byte (addr / 256)
    ∷ byte (addr / 65536)
    ∷ byte (addr / 16777216)
    ∷ []

-- The header of `read_from_ram`: three bytes of length.
unfoldable pub ram_header : ℕ → ℕ → List ℕ
ram_header length offset =
    b'd'
    ∷ byte length
    ∷ byte (length / 256)
    ∷ byte (length / 65536)
    ∷ byte offset
    ∷ byte (offset / 256)
    ∷ byte (offset / 65536)
    ∷ byte (offset / 16777216)
    ∷ []

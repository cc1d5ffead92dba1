-- ===== src/Csr/Tests.antt =====
-- A file that names a register twice.
use pypga.Base.{ℕ, List, [], ◌∷◌}
use pypga.Instance.{Name}
use pypga.Csr.{Row}

abbrev row : Name → ℕ → Row
row n a = record { row_name = n; row_address = a; row_size = 1; row_mode = b'r' ∷ b'o' ∷ [] }

abbrev rows : List Row
rows = row (b'a' ∷ []) 16 ∷ row (b'b' ∷ []) 20 ∷ row (b'a' ∷ []) 24 ∷ []

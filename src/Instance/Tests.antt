-- ===== src/Instance/Tests.antt =====
-- A counter in the module `daq` of the top module.
use pypga.Base.{[], ◌∷◌}
use pypga.Instance.{Name, Instance, top}

abbrev board : Instance
board = top (b't' ∷ b'o' ∷ b'p' ∷ [])

abbrev daq : Name
daq = b'd' ∷ b'a' ∷ b'q' ∷ []

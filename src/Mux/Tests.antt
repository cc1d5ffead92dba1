-- ===== src/Mux/Tests.antt =====
-- Three named inputs of eight bits.
use pypga.Base.{◌≡◌, refl, List, [], ◌∷◌, some}
use pypga.Instance.{Name}
use pypga.Mux.{index_of}

abbrev options : List Name
options = (b'a' ∷ []) ∷ (b'b' ∷ []) ∷ (b'c' ∷ []) ∷ []

found : index_of (b'c' ∷ []) options ≡ some 2
unfolding index_of
found = refl

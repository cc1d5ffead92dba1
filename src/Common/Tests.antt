-- ===== src/Common/Tests.antt =====
-- Concrete signals and lists for the lemmas of common.py.
use pypga.Base.{◌≡◌, refl, List, [], ◌∷◌, none, some}
use pypga.Base.Int.{ℤ, pos}
use pypga.Common.{get_width_and_depth}

abbrev samples : List ℤ
samples = pos 3 ∷ pos 200 ∷ pos 0 ∷ []

samples_size : get_width_and_depth samples none ≡ some (8, 3)
unfolding get_width_and_depth
samples_size = refl

-- ===== src/Sim/Tests.antt =====
-- A module with one signal, which counts.
use pypga.Base.{◌≡◌, refl, [], ◌∷◌, map}
use pypga.Base.Int.{ℤ, pos, ◌+ℤ◌}
use pypga.Instance.{Name}
use pypga.Sim.{table, driven, sim}
use pypga.Sim.Steps.{times, doubled, watching, states, sim-watching}

abbrev value : Name → ℤ → ℤ
value n s = s

abbrev assign : Name → ℤ → ℤ → ℤ
assign n v s = v

abbrev cycle : ℤ → ℤ
cycle s = s +ℤ pos 1

abbrev x : Name
x = b'x' ∷ []

set_in_one_step :
    (sim value assign cycle 3 ((x, table ((1, pos 7) ∷ [])) ∷ []) (pos 0)).1
    ≡ (pos 0 ∷ pos 0 ∷ pos 7 ∷ pos 7 ∷ pos 8 ∷ pos 8 ∷ []) ∷ []
unfolding sim ◌+ℤ◌
set_in_one_step = refl

driven_by_itself :
    (sim value assign cycle 2
      ((x, driven (x ∷ []) (λ i vs. elim vs [ [] ↦ pos 0 | v ∷ ws ↦ v +ℤ pos 4 ])) ∷ [])
      (pos 0)).1
    ≡ (pos 4 ∷ pos 4 ∷ pos 9 ∷ pos 9 ∷ []) ∷ []
unfolding sim ◌+ℤ◌
driven_by_itself = refl

sim-watching_example :
    sim value assign cycle 3 (watching (x ∷ [])) (pos 5)
    ≡ (times 0 3, map (λ m. doubled (map (value m) (states value assign cycle 3 (pos 5)))) (x ∷ []))
sim-watching_example = sim-watching value assign cycle 3 (x ∷ []) (pos 5)

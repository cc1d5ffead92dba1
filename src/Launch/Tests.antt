-- ===== src/Launch/Tests.antt =====
-- Three binaries, of which the first does not run.
use pypga.Base.{◌≡◌, refl, ◌+◌, ltb, [], ◌∷◌, some}
use pypga.Launch.{State, start}

abbrev busy : State
busy = record { token = some 5; serving = some (1, 5); generated = 1 }

second_serves :
    start (λ n. n + 40) (λ f. ltb 1 f) (1 ∷ 2 ∷ 3 ∷ []) busy
    ≡ (some 42, record { token = some 42; serving = some (2, 42); generated = 3 })
unfolding start
second_serves = refl

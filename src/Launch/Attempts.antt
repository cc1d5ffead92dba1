-- ===== src/Launch/Attempts.antt =====
-- Which binary serves in the end, and with which token.
use pypga.Base.{
  ℕ, ◌≡◌, refl, Bool, Bool-cases, inl, inr, if◌then◌else◌, List, [], ◌∷◌, Option, none, some,
}
use pypga.Base.Options.{map_option}
use pypga.Launch.{State, stop, attempts, launch, generate_new_token, start}

-- The first binary that runs.
abbrev pub first : (ℕ → Bool) → List ℕ → Option ℕ
first runs [] = none
first runs (file ∷ files) = if runs file then some file else first runs files

-- What holds when `start` is over.
abbrev pub Started : (ℕ → Bool) → List ℕ → Option ℕ × State → Type 0
Started runs files (result, s) =
    (result ≡ s.token)
    × (map_option (λ (p : ℕ × ℕ). p.0) s.serving ≡ first runs files)
    × (map_option (λ (p : ℕ × ℕ). p.1) s.serving ≡ s.token)

module _ (uuid : ℕ → ℕ) (runs : ℕ → Bool) where
  attempts-Started :
      (files : List ℕ) (s : State)
      → s.token ≡ none
      → s.serving ≡ none
      → Started runs files (attempts uuid runs files s)
  unfolding attempts launch generate_new_token stop
  attempts-Started [] s t v = rw (t, v) (refl, refl, refl)
  attempts-Started (file ∷ files) s t v = elim (Bool-cases (runs file)) [
    | inl fits ↦ rw (fits) (refl, refl, refl)
    | inr fails ↦ rw (fails) (attempts-Started files _ refl refl)
  ]

  -- When `start` is over, the first of the binaries that runs is the one that serves on the board,
  -- whatever served there before; the token that it was given is the one that the object keeps and
  -- that is returned. If none of them runs, none serves, there is no token and the call fails.
  pub start-Started : (files : List ℕ) (s : State) → Started runs files (start uuid runs files s)
  unfolding start stop
  start-Started files s =
      attempts-Started files (record s { token = none; serving = none }) refl refl

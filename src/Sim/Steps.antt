-- ===== src/Sim/Steps.antt =====
-- What the lists of a simulation hold.
use pypga.Base.{◌≡◌, refl, ap, ap₂, sym, ◌∙◌, ℕ, zero, suc, ◌+◌, List, [], ◌∷◌, ◌++◌, map}
use mathlib.Core.List.{append_assoc, append-nil}
use pypga.Base.Int.{ℤ}
use pypga.Instance.{Name}
use pypga.Sim.{Query, watched, ask_all, steps, no_results, sim, drive}

-- The steps i, i + 1, ... with their ends.
abbrev pub times : ℕ → ℕ → List ℕ
times i zero = []
times i (suc n) = i ∷ (i + 1) ∷ times (i + 1) n

-- Each value twice.
abbrev pub doubled : List ℤ → List ℤ
doubled [] = []
doubled (v ∷ vs) = v ∷ v ∷ doubled vs

-- Queries that only look.
abbrev pub watching : List Name → List (Name × Query)
watching [] = []
watching (n ∷ ns) = (n, watched) ∷ watching ns

map_eq {ℓ κ} :
    {A : Type ℓ} {B : Type κ} (f g : A → B) (xs : List A)
    → ((x : A) → f x ≡ g x)
    → map f xs ≡ map g xs
map_eq f g [] h = refl
map_eq f g (x ∷ xs) h = ap₂ (λ y ys. y ∷ ys) (h x) (map_eq f g xs h)

module _ {S : Type 0} (value : Name → S → ℤ) (assign : Name → ℤ → S → S) (cycle : S → S) where
  -- The states of n cycles without any assignment.
  abbrev pub states : ℕ → S → List S
  states zero s = []
  states (suc n) s = s ∷ states n (cycle s)

  ask_all-watching :
      (i : ℕ) (ns : List Name) (f : Name → List ℤ) (s : S)
      → ask_all value assign cycle i (watching ns) (map f ns) s
        ≡ (map (λ n. f n ++ (value n s ∷ value n s ∷ [])) ns, s)
  unfolding ask_all drive
  ask_all-watching i [] f s = refl
  ask_all-watching i (n ∷ ns) f s =
      ap (λ r. ((f n ++ (value n s ∷ value n s ∷ [])) ∷ r.0, r.1)) (ask_all-watching i ns f s)

  steps-watching :
      (n i : ℕ) (ns : List Name) (f : Name → List ℤ) (t : List ℕ) (s : S)
      → steps value assign cycle n i (watching ns) (t, map f ns) s
        ≡ (t ++ times i n, map (λ m. f m ++ doubled (map (value m) (states n s))) ns)
  unfolding steps
  steps-watching zero i ns f t s =
      ap₂ (λ x y. (x, y)) (sym (append-nil t))
        (map_eq f (λ m. f m ++ []) ns (λ m. sym (append-nil (f m))))
  steps-watching (suc n) i ns f t s =
      let g : Name → List ℤ = λ m. f m ++ (value m s ∷ value m s ∷ []) in
      let u : List ℕ = t ++ (i ∷ (i + 1) ∷ []) in
      ap (λ r. steps value assign cycle n (i + 1) (watching ns) (u, r.0) (cycle r.1))
        (ask_all-watching i ns f s)
      ∙ steps-watching n (i + 1) ns g u (cycle s)
      ∙ ap₂ (λ x y. (x, y)) (append_assoc t (i ∷ (i + 1) ∷ []) (times (i + 1) n))
          (map_eq (λ m. g m ++ doubled (map (value m) (states n (cycle s))))
            (λ m. f m ++ doubled (map (value m) (states (suc n) s))) ns
            (λ m.
              append_assoc (f m) (value m s ∷ value m s ∷ [])
                (doubled (map (value m) (states n (cycle s))))))

  no_results-watching : (ns : List Name) → no_results (watching ns) ≡ map (λ (n : Name). []) ns
  unfolding no_results
  no_results-watching [] = refl
  no_results-watching (n ∷ ns) = ap (λ l. [] ∷ l) (no_results-watching ns)

  -- A simulation that only watches does not disturb the module: the list of a signal has its value
  -- in each of the cycles, twice, and the times are the start and the end of each cycle.
  pub sim-watching :
      (n : ℕ) (ns : List Name) (s : S)
      → sim value assign cycle n (watching ns) s
        ≡ (times 0 n, map (λ m. doubled (map (value m) (states n s))) ns)
  unfolding sim
  sim-watching n ns s =
      ap (λ r. steps value assign cycle n 0 (watching ns) ([], r) s) (no_results-watching ns)
      ∙ steps-watching n 0 ns (λ m. []) [] s

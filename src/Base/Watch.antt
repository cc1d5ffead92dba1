-- ===== src/Base/Watch.antt =====
-- Clocked logic that goes from one state to another whatever its inputs are.

use mathlib.Core.Path.{◌≡◌, refl, ap, ap₂, ◌∙◌}
use mathlib.Core.List.{List, [], ◌∷◌, ◌++◌, map}
use native.Mathlib.Omega.{arith}
use pypga.Base.Circuit.{run}
use pypga.Base.Lists.{length}

module _ {S I O : Type 0} where
  -- The outputs before each clock edge.
  abbrev pub watch : (S → O) → (I → S → S) → List I → S → List O
  watch view step [] s = []
  watch view step (i ∷ is) s = view s ∷ watch view step is (step i s)

  -- From s to t with these outputs.
  abbrev pub Goes : (S → O) → (I → S → S) → List O → S → S → Type 0
  Goes view step [] s t = s ≡ t
  Goes view step (o ∷ out) s t =
      (view s ≡ o) × ((u : S) × ((i : I) → step i s ≡ u) × Goes view step out u t)

  pub Goes-append :
      (view : S → O) (step : I → S → S) (xs ys : List O) (s t u : S)
      → Goes view step xs s t
      → Goes view step ys t u
      → Goes view step (xs ++ ys) s u
  Goes-append view step [] ys s t u e g = rw (e) g
  Goes-append view step (x ∷ xs) ys s t u (e, (v, next, g)) h =
      (e, (v, next, Goes-append view step xs ys v t u g h))

  pub Goes-watch :
      (view : S → O) (step : I → S → S) (out : List O) (is : List I) (s t : S)
      → Goes view step out s t
      → length is ≡ length out
      → (watch view step is s ≡ out) × (run step is s ≡ t)
  Goes-watch view step [] [] s t e h = (refl, e)
  Goes-watch view step [] (i ∷ is) s t e h = absurd (omega arith)
  Goes-watch view step (x ∷ xs) [] s t g h = absurd (omega arith)
  Goes-watch view step (x ∷ xs) (i ∷ is) s t (e, (v, next, g)) h =
      let (same, there) = Goes-watch view step xs is v t g (omega arith) in
      (ap₂ ◌∷◌ e (ap (watch view step is) (next i) ∙ same), ap (run step is) (next i) ∙ there)

pub map-watch :
    {S I O P : Type 0} (seen : S → P) (view : S → O) (f : O → P)
    → ((s : S) → seen s ≡ f (view s))
    → (step : I → S → S) (is : List I) (s : S) → watch seen step is s ≡ map f (watch view step is s)
map-watch seen view f same step [] s = refl
map-watch seen view f same step (i ∷ is) s =
    ap₂ ◌∷◌ (same s) (map-watch seen view f same step is (step i s))

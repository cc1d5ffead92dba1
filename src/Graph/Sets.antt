-- ===== src/Graph/Sets.antt =====
-- Membership in the dicts and sets of the graph.
use pypga.Base.{ℕ, ◌≡◌, ◌∙◌, ◌↔◌, ◌⊎◌, inl, inr, Bool-cases, ==_iff, ◌==◌, [], ◌∷◌, ◌++◌}
use mathlib.Core.Logic.{⊎_elim}
use pypga.Graph.{Nodes, Edges, Info, put, update, edges_to}

-- A node has this key.
abbrev pub In : ℕ → Nodes → Type 0
In k [] = ⊥
In k (n ∷ ns) = (k ≡ n.0) ⊎ In k ns

abbrev pub Joins : ℕ → ℕ → Edges → Type 0
Joins a b [] = ⊥
Joins a b (e ∷ es) = ((a ≡ e.0) × (b ≡ e.1)) ⊎ Joins a b es

pub In-put : (j k : ℕ) (i : Info) (ns : Nodes) → In j (put k i ns) ↔ ((j ≡ k) ⊎ In j ns)
unfolding put
In-put j k i [] = (λ h. h, λ h. h)
In-put j k i (n ∷ ns) = elim (Bool-cases (n.0 == k)) [
  | inl same ↦ rw (same) (
    ⊎_elim inl (λ h. inr (inr h)),
    ⊎_elim inl (⊎_elim (λ e. inl (e ∙ (==_iff n.0 k).0 same)) inr),
  )
  | inr other ↦ rw (other) (
    ⊎_elim (λ e. inr (inl e)) (λ h. ⊎_elim inl (λ x. inr (inr x)) ((In-put j k i ns).0 h)),
    ⊎_elim (λ e. inr ((In-put j k i ns).1 (inl e)))
        (⊎_elim inl (λ h. inr ((In-put j k i ns).1 (inr h)))),
  )
]

pub In-update : (j : ℕ) (ns ms : Nodes) → In j (update ns ms) ↔ (In j ns ⊎ In j ms)
unfolding update
In-update j ns [] = (inl, ⊎_elim (λ h. h) absurd)
In-update j ns (m ∷ ms) =
    let (there, back) = In-update j (put m.0 m.1 ns) ms in
    let (out, in_) = In-put j m.0 m.1 ns in
    (
      λ h. ⊎_elim (λ x. ⊎_elim (λ e. inr (inl e)) inl (out x)) (λ y. inr (inr y)) (there h),
      ⊎_elim (λ x. back (inl (in_ (inr x))))
          (⊎_elim (λ e. back (inl (in_ (inl e)))) (λ y. back (inr y))),
    )

pub Joins-append : (a b : ℕ) (es fs : Edges) → Joins a b (es ++ fs) ↔ (Joins a b es ⊎ Joins a b fs)
Joins-append a b [] fs = (inr, ⊎_elim absurd (λ h. h))
Joins-append a b (e ∷ es) fs =
    let (there, back) = Joins-append a b es fs in
    (
      ⊎_elim (λ x. inl (inl x)) (λ h. ⊎_elim (λ y. inl (inr y)) inr (there h)),
      ⊎_elim (⊎_elim inl (λ y. inr (back (inl y)))) (λ z. inr (back (inr z))),
    )

pub Joins-edges_to : (a b t : ℕ) (ns : Nodes) → Joins a b (edges_to t ns) ↔ (In a ns × (b ≡ t))
unfolding edges_to
Joins-edges_to a b t [] = (λ h. absurd h, λ h. absurd h.0)
Joins-edges_to a b t (n ∷ ns) =
    let (there, back) = Joins-edges_to a b t ns in
    (
      ⊎_elim (λ x. (inl x.0, x.1)) (λ h. (inr (there h).0, (there h).1)),
      λ h. ⊎_elim (λ e. inl (e, h.1)) (λ x. inr (back (x, h.1))) h.0,
    )

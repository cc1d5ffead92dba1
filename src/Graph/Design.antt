-- ===== src/Graph/Design.antt =====
-- The graph of a whole design.
use pypga.Base.{ℕ, ◌≡◌, sym, ◌↔◌, ◌⊎◌, inl, inr, []}
use mathlib.Core.Logic.{⊎_elim}
use pypga.Graph.{
  Statement, assign, if_, case_, Statements, no_statements, statement, Cases, no_cases, case, empty,
  ok, handle_statements, picture, Picture,
}
use pypga.Graph.Sets.{In, Joins}
use pypga.Graph.Flow.{
  Assigned, AssignedIn, AssignedCase, Flows, FlowsIn, FlowsCase, bind-ok, ok_eq, statements_graph,
  nothing_more,
}

-- Twice the same adds nothing.
again : {A B C : Type 0} → B ↔ A → C ↔ (B ⊎ A) → C ↔ A
again (f, f') (g, g') = (λ c. ⊎_elim f (λ a. a) (g c), λ a. g' (inr a))

four_times : {A B P Q R S : Type 0} → P ↔ A → Q ↔ (P ⊎ B) → R ↔ (Q ⊎ A) → S ↔ (R ⊎ B) → S ↔ (A ⊎ B)
four_times (p, p') (q, q') (r, r') (s, s') = (
  λ x. ⊎_elim (λ y. ⊎_elim (λ z. ⊎_elim (λ w. inl (p w)) inr (q z)) inl (r y)) inr (s x),
  ⊎_elim (λ a. s' (inl (r' (inr a)))) (λ b. s' (inr b)),
)

-- If the graph is made, its nodes are the signals that are assigned or read in an assignment, its
-- edges go from each signal that an assignment reads to the one that it assigns, and those of the
-- clocked statements are apart from those of the others. What is read in a condition alone has no
-- node and no edge.
pub picture_lem :
    (sync comb : Statements) (p : Picture)
    → picture sync comb ≡ ok p
    → ((k : ℕ) → In k p.all_nodes ↔ (AssignedIn k sync ⊎ AssignedIn k comb))
      × ((a b : ℕ) → Joins a b p.sync_edges ↔ FlowsIn a b sync)
      × ((a b : ℕ) → Joins a b p.comb_edges ↔ FlowsIn a b comb)
unfolding picture
picture_lem sync comb p h =
    let (x, hx, h₁) = bind-ok (handle_statements empty sync) _ p h in
    let (y, hy, h₂) =
      bind-ok (handle_statements (record { nodes = x.nodes; edges = [] }) comb) _ p h₁ in
    let (z, hz, h₃) =
      bind-ok (handle_statements (record { nodes = y.nodes; edges = x.edges }) sync) _ p h₂ in
    let (w, hw, h₄) =
      bind-ok (handle_statements (record { nodes = z.nodes; edges = y.edges }) comb) _ p h₃ in
    let px = statements_graph sync empty x hx in
    let py = statements_graph comb (record { nodes = x.nodes; edges = [] }) y hy in
    let pz = statements_graph sync (record { nodes = y.nodes; edges = x.edges }) z hz in
    let pw = statements_graph comb (record { nodes = z.nodes; edges = y.edges }) w hw in
    rw
      (sym
        (ok_eq (record { all_nodes = w.nodes; sync_edges = z.edges; comb_edges = w.edges }) p h₄))
      (
        λ k. four_times (nothing_more (px.0 k)) (py.0 k) (pz.0 k) (pw.0 k),
        λ a b. again (nothing_more (px.1 a b)) (pz.1 a b),
        λ a b. again (nothing_more (py.1 a b)) (pw.1 a b),
      )

-- Both ends of a flow are signals of an assignment.
mutual
  unfolding Assigned Flows

  ends : (a b : ℕ) (s : Statement) → Flows a b s → Assigned a s × Assigned b s
  ends a b (assign l r) h = (inr h.0, inl h.1)
  ends a b (if_ c t f) h =
      ⊎_elim (λ x. let p = ends_in a b t x in (inl p.0, inl p.1))
        (λ x. let p = ends_in a b f x in (inr p.0, inr p.1)) h
  ends a b (case_ t cs) h = ends_case a b cs h

  ends_in : (a b : ℕ) (ss : Statements) → FlowsIn a b ss → AssignedIn a ss × AssignedIn b ss
  ends_in a b no_statements h = absurd h
  ends_in a b (statement s ss) h =
      ⊎_elim (λ x. let p = ends a b s x in (inl p.0, inl p.1))
        (λ x. let p = ends_in a b ss x in (inr p.0, inr p.1)) h

  ends_case : (a b : ℕ) (cs : Cases) → FlowsCase a b cs → AssignedCase a cs × AssignedCase b cs
  ends_case a b no_cases h = absurd h
  ends_case a b (case n ss cs) h =
      ⊎_elim (λ x. let p = ends_in a b ss x in (inl p.0, inl p.1))
        (λ x. let p = ends_case a b cs x in (inr p.0, inr p.1)) h

-- If the graph is made, both ends of each of its edges are nodes of it.
pub picture-In :
    (sync comb : Statements) (p : Picture)
    → picture sync comb ≡ ok p
    → (a b : ℕ) → (Joins a b p.sync_edges ⊎ Joins a b p.comb_edges)
    → In a p.all_nodes × In b p.all_nodes
picture-In sync comb p h a b joined =
    let q = picture_lem sync comb p h in
    ⊎_elim
      (λ x. let d = ends_in a b sync ((q.1 a b).0 x) in ((q.0 a).1 (inl d.0), (q.0 b).1 (inl d.1)))
      (λ x. let d = ends_in a b comb ((q.2 a b).0 x) in ((q.0 a).1 (inr d.0), (q.0 b).1 (inr d.1)))
      joined

-- ===== src/Graph/Flow.antt =====
-- The graph shows where the signals of a design flow.
use pypga.Base.{ℕ, ◌≡◌, refl, sym, ap, ◌∙◌, ◌↔◌, ◌⊎◌, inl, inr, arith, [], ◌∷◌, ◌++◌}
use mathlib.Core.List.{append-nil}
use mathlib.Core.Logic.{⊎_elim}
use pypga.Graph.{
  Value, signal, constant, operator, cat, slice, other, Values, no_values, value, Statement, assign,
  if_, case_, Statements, no_statements, statement, Cases, no_cases, case, Graph, empty, merge,
  update, Result, ok, key_error, attribute_error, ◌>>=◌, handle_signal, handle_value, handle_values,
  handle_assign, handle, handle_statements, handle_cases, edges_to, first_key,
}
use pypga.Graph.Sets.{In, Joins, In-update, Joins-append, Joins-edges_to}

-- A signal occurs in a value.
unfoldable mutual
  pub Occurs : ℕ → Value → Type 0
  Occurs k (signal j i) = k ≡ j
  Occurs k constant = ⊥
  Occurs k (operator vs) = OccursIn k vs
  Occurs k (cat vs) = OccursIn k vs
  Occurs k (slice v) = Occurs k v
  Occurs k other = ⊥

  pub OccursIn : ℕ → Values → Type 0
  OccursIn k no_values = ⊥
  OccursIn k (value v vs) = Occurs k v ⊎ OccursIn k vs

-- A signal occurs on either side of an assignment, at any depth.
unfoldable mutual
  pub Assigned : ℕ → Statement → Type 0
  Assigned k (assign l r) = Occurs k l ⊎ Occurs k r
  Assigned k (if_ c t f) = AssignedIn k t ⊎ AssignedIn k f
  Assigned k (case_ t cs) = AssignedCase k cs

  pub AssignedIn : ℕ → Statements → Type 0
  AssignedIn k no_statements = ⊥
  AssignedIn k (statement s ss) = Assigned k s ⊎ AssignedIn k ss

  pub AssignedCase : ℕ → Cases → Type 0
  AssignedCase k no_cases = ⊥
  AssignedCase k (case n ss cs) = AssignedIn k ss ⊎ AssignedCase k cs

-- An assignment to b, at any depth, reads a.
unfoldable mutual
  pub Flows : ℕ → ℕ → Statement → Type 0
  Flows a b (assign l r) = Occurs a r × Occurs b l
  Flows a b (if_ c t f) = FlowsIn a b t ⊎ FlowsIn a b f
  Flows a b (case_ t cs) = FlowsCase a b cs

  pub FlowsIn : ℕ → ℕ → Statements → Type 0
  FlowsIn a b no_statements = ⊥
  FlowsIn a b (statement s ss) = Flows a b s ⊎ FlowsIn a b ss

  pub FlowsCase : ℕ → ℕ → Cases → Type 0
  FlowsCase a b no_cases = ⊥
  FlowsCase a b (case n ss cs) = FlowsIn a b ss ⊎ FlowsCase a b cs

pub bind-ok :
    {A B : Type 0} (r : Result A) (f : A → Result B) (b : B)
    → (r >>= f) ≡ ok b
    → (a : A) × (r ≡ ok a) × (f a ≡ ok b)
bind-ok (ok a) f b h = (a, refl, h)
bind-ok key_error f b h = absurd (ground arith)
bind-ok attribute_error f b h = absurd (ground arith)

pub ok_eq : {A : Type 0} (a b : A) → ok a ≡ ok b → a ≡ b
ok_eq a b h = ground arith

-- The node of a signal.
signal_graph :
    (v : Value) (g : Graph)
    → handle_signal v ≡ ok g
    → (g.edges ≡ [])
      × ((k : ℕ) → In k g.nodes ↔ Occurs k v)
      × ((b : ℕ) → (b ≡ first_key g.nodes) ↔ Occurs b v)
unfolding handle_signal Occurs first_key
signal_graph (signal j i) g h =
    rw (sym (ok_eq (record { nodes = (j, i) ∷ []; edges = [] }) g h))
      (refl, λ k. (⊎_elim (λ e. e) absurd, inl), λ b. (λ e. e, λ e. e))
signal_graph constant g h = absurd (ground arith)
signal_graph (operator vs) g h = absurd (ground arith)
signal_graph (cat vs) g h = absurd (ground arith)
signal_graph (slice v) g h = absurd (ground arith)
signal_graph other g h = absurd (ground arith)

-- A signal stands in the first, or in the others.
either : {A B C D E : Type 0} → C ↔ (A ⊎ B) → D ↔ (C ⊎ E) → D ↔ (A ⊎ (B ⊎ E))
either (f, f') (g, g') = (
  λ d. ⊎_elim (λ c. ⊎_elim inl (λ b. inr (inl b)) (f c)) (λ e. inr (inr e)) (g d),
  ⊎_elim (λ a. g' (inl (f' (inl a)))) (⊎_elim (λ b. g' (inl (f' (inr b)))) (λ e. g' (inr e))),
)

-- The same with a part that is known to be something else.
along : {A B C D : Type 0} → B ↔ C → D ↔ (A ⊎ B) → D ↔ (A ⊎ C)
along (f, f') (g, g') =
    (λ d. ⊎_elim inl (λ b. inr (f b)) (g d), ⊎_elim (λ a. g' (inl a)) (λ c. g' (inr (f' c))))

pub nothing_more : {A B : Type 0} → B ↔ (⊥ ⊎ A) → B ↔ A
nothing_more (f, f') = (λ b. ⊎_elim absurd (λ a. a) (f b), λ a. f' (inr a))

-- What a value adds to the graph: its signals, and no edges.
mutual
  unfolding handle_value Occurs

  value_graph :
      (v : Value) (g : Graph)
      → handle_value v ≡ ok g
      → (g.edges ≡ []) × ((k : ℕ) → In k g.nodes ↔ Occurs k v)
  value_graph (signal j i) g h = let p = signal_graph (signal j i) g h in (p.0, p.1)
  value_graph constant g h = rw (sym (ok_eq empty g h)) (refl, λ k. (λ x. x, λ x. x))
  value_graph (operator vs) g h =
      let p = values_graph vs empty g h in (p.0, λ k. nothing_more (p.1 k))
  value_graph (cat vs) g h = let p = values_graph vs empty g h in (p.0, λ k. nothing_more (p.1 k))
  value_graph (slice v) g h = let p = signal_graph v g h in (p.0, p.1)
  value_graph other g h = absurd (ground arith)

  values_graph :
      (vs : Values) (g h : Graph)
      → handle_values g vs ≡ ok h
      → (h.edges ≡ g.edges) × ((k : ℕ) → In k h.nodes ↔ (In k g.nodes ⊎ OccursIn k vs))
  values_graph no_values g h e = rw (sym (ok_eq g h e)) (refl, λ k. (inl, ⊎_elim (λ x. x) absurd))
  values_graph (value v vs) g h e =
      let (f, made, rest) = bind-ok (handle_value v) (λ x. handle_values (merge g x) vs) h e in
      let p = value_graph v f made in
      let q = values_graph vs (merge g f) h rest in
      (
        q.0 ∙ ap (λ l. g.edges ++ l) p.0 ∙ append-nil g.edges,
        λ k. either (along (p.1 k) (In-update k g.nodes f.nodes)) (q.1 k),
      )

both : {A B C D E : Type 0} → A ↔ C → B ↔ D → E ↔ (A ⊎ B) → E ↔ (C ⊎ D)
both (f, f') (g, g') (h, h') = (
  λ e. ⊎_elim (λ a. inl (f a)) (λ b. inr (g b)) (h e),
  ⊎_elim (λ c. h' (inl (f' c))) (λ d. h' (inr (g' d))),
)

-- An assignment, from the graphs of its sides.
sides_graph :
    (l r : Value) (gl gr : Graph)
    → handle_signal l ≡ ok gl
    → handle_value r ≡ ok gr
    → ((k : ℕ) → In k (update gl.nodes gr.nodes) ↔ (Occurs k l ⊎ Occurs k r))
      × ((a b : ℕ)
          → Joins a b ((gl.edges ++ gr.edges) ++ edges_to (first_key gl.nodes) gr.nodes)
            ↔ (Occurs a r × Occurs b l))
sides_graph l r gl gr left right =
    let p = signal_graph l gl left in
    let q = value_graph r gr right in
    (
      λ k. both (p.1 k) (q.1 k) (In-update k gl.nodes gr.nodes),
      λ a b.
          rw (p.0, q.0)
            (let (there, back) = Joins-edges_to a b (first_key gl.nodes) gr.nodes in
              (
                λ x. ((q.1 a).0 (there x).0, (p.2 b).0 (there x).1),
                λ y. back ((q.1 a).1 y.0, (p.2 b).1 y.1),
              )),
    )

assign_graph :
    (l r : Value) (g : Graph)
    → handle_assign l r ≡ ok g
    → ((k : ℕ) → In k g.nodes ↔ (Occurs k l ⊎ Occurs k r))
      × ((a b : ℕ) → Joins a b g.edges ↔ (Occurs a r × Occurs b l))
unfolding handle_assign
assign_graph l r g h =
    let (gl, left, rest) = bind-ok (handle_signal l) _ g h in
    let (gr, right, built) = bind-ok (handle_value r) _ g rest in
    rw (sym (ok_eq _ g built)) (sides_graph l r gl gr left right)

-- What a statement adds to the graph: the signals that are assigned or read in it, and an edge for
-- each flow.
abbrev pub Pictures : (ℕ → Type 0) → (ℕ → ℕ → Type 0) → Graph → Graph → Type 0
Pictures touched flows g h =
    ((k : ℕ) → In k h.nodes ↔ (In k g.nodes ⊎ touched k))
    × ((a b : ℕ) → Joins a b h.edges ↔ (Joins a b g.edges ⊎ flows a b))

same_graph : (g : Graph) → Pictures (λ k. ⊥) (λ a b. ⊥) g g
same_graph g = (λ k. (inl, ⊎_elim (λ x. x) absurd), λ a b. (inl, ⊎_elim (λ x. x) absurd))

after :
    (t u : ℕ → Type 0) (f e : ℕ → ℕ → Type 0) (g h i : Graph)
    → Pictures t f g h
    → Pictures u e h i
    → Pictures (λ k. t k ⊎ u k) (λ a b. f a b ⊎ e a b) g i
after t u f e g h i (n, j) (m, l) = (λ k. either (n k) (m k), λ a b. either (j a b) (l a b))

from_empty :
    (t : ℕ → Type 0) (f : ℕ → ℕ → Type 0) (g : Graph)
    → Pictures t f empty g
    → ((k : ℕ) → In k g.nodes ↔ t k) × ((a b : ℕ) → Joins a b g.edges ↔ f a b)
from_empty t f g (n, j) = (λ k. nothing_more (n k), λ a b. nothing_more (j a b))

merged :
    (t : ℕ → Type 0) (f : ℕ → ℕ → Type 0) (g h : Graph)
    → ((k : ℕ) → In k h.nodes ↔ t k) × ((a b : ℕ) → Joins a b h.edges ↔ f a b)
    → Pictures t f g (merge g h)
merged t f g h (n, j) = (
  λ k. along (n k) (In-update k g.nodes h.nodes),
  λ a b. along (j a b) (Joins-append a b g.edges h.edges),
)

mutual
  unfolding handle Assigned Flows

  statement_graph :
      (s : Statement) (g : Graph)
      → handle s ≡ ok g
      → ((k : ℕ) → In k g.nodes ↔ Assigned k s) × ((a b : ℕ) → Joins a b g.edges ↔ Flows a b s)
  statement_graph (assign l r) g h = assign_graph l r g h
  statement_graph (if_ c t f) g h =
      let (x, first, rest) = bind-ok (handle_statements empty t) (λ y. handle_statements y f) g h in
      from_empty _ _ g
        (after _ _ _ _ empty x g (statements_graph t empty x first) (statements_graph f x g rest))
  statement_graph (case_ t cs) g h = from_empty _ _ g (cases_graph cs empty g h)

  pub statements_graph :
      (ss : Statements) (g h : Graph)
      → handle_statements g ss ≡ ok h
      → Pictures (λ k. AssignedIn k ss) (λ a b. FlowsIn a b ss) g h
  statements_graph no_statements g h e = rw (sym (ok_eq g h e)) (same_graph g)
  statements_graph (statement s ss) g h e =
      let (x, made, rest) = bind-ok (handle s) (λ y. handle_statements (merge g y) ss) h e in
      after _ _ _ _ g (merge g x) h (merged _ _ g x (statement_graph s x made))
        (statements_graph ss (merge g x) h rest)

  cases_graph :
      (cs : Cases) (g h : Graph)
      → handle_cases g cs ≡ ok h
      → Pictures (λ k. AssignedCase k cs) (λ a b. FlowsCase a b cs) g h
  cases_graph no_cases g h e = rw (sym (ok_eq g h e)) (same_graph g)
  cases_graph (case n ss cs) g h e =
      let (x, made, rest) = bind-ok (handle_statements g ss) (λ y. handle_cases y cs) h e in
      after _ _ _ _ g x h (statements_graph ss g x made) (cases_graph cs x h rest)

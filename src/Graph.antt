-- ===== src/Graph.antt =====
-- `Module.vis` of pypga/core/module.py: the graph of the signals of a design, by the handlers of
-- Migen's statements. The drawing of the graph is left out.
pub mod Sets
pub mod Flow
pub mod Design
mod Tests
use pypga.Base.{ℕ, Bool, true, false, ◌==◌, if◌then◌else◌, List, [], ◌∷◌, ◌++◌, map}
use pypga.Instance.{Name}

-- What a node shows of its signal.
pub record Info : Type 0 where
  pub label : Name
  pub nbits : ℕ
  pub is_signed : Bool

-- The values and statements of Migen that can be met. A signal has an identity, which is the key of
-- its node; `other` is a value without a handler.
mutual
  pub data Value : Type 0 where
    signal : ℕ → Info → Value
    constant : Value
    operator : Values → Value
    cat : Values → Value
    slice : Value → Value
    other : Value

  pub data Values : Type 0 where
    no_values : Values
    value : Value → Values → Values

-- The condition of an `If` and the test of a `Case` are values.
mutual
  pub data Statement : Type 0 where
    assign : Value → Value → Statement
    if_ : Value → Statements → Statements → Statement
    case_ : Value → Cases → Statement

  pub data Statements : Type 0 where
    no_statements : Statements
    statement : Statement → Statements → Statements

  pub data Cases : Type 0 where
    no_cases : Cases
    case : ℕ → Statements → Cases → Cases

abbrev pub Nodes : Type 0
Nodes = List (ℕ × Info)

abbrev pub Edges : Type 0
Edges = List (ℕ × ℕ)

-- The dict and the set that a handler returns; a set is the list of what was added to it.
pub record Graph : Type 0 where
  pub nodes : Nodes
  pub edges : Edges

abbrev pub empty : Graph
empty = record { nodes = []; edges = [] }

-- `nodes[key] = info`
unfoldable pub put : ℕ → Info → Nodes → Nodes
put k i [] = (k, i) ∷ []
put k i (n ∷ ns) = let rest = put k i ns in if n.0 == k then (k, i) ∷ ns else n ∷ rest

-- `nodes.update(...)`
unfoldable pub update : Nodes → Nodes → Nodes
unfolding put
update ns [] = ns
update ns (m ∷ ms) = update (put m.0 m.1 ns) ms

abbrev pub merge : Graph → Graph → Graph
merge g h = record { nodes = update g.nodes h.nodes; edges = g.edges ++ h.edges }

-- A type without a handler is a `KeyError`; a value that is not a signal where one is expected is
-- an `AttributeError`.
pub data Result (A : Type 0) : Type 0 where
  ok : A → Result A
  key_error attribute_error : Result A

infixl 5 ◌>>=◌
abbrev pub ◌>>=◌ : {A B : Type 0} → Result A → (A → Result B) → Result B
ok a >>= f = f a
key_error >>= f = key_error
attribute_error >>= f = attribute_error

unfoldable pub handle_signal : Value → Result Graph
handle_signal (signal k i) = ok (record { nodes = (k, i) ∷ []; edges = [] })
handle_signal v = attribute_error

-- The handlers of values, by type; operands and the parts of a `Cat` are gathered in a loop.
unfoldable mutual
  unfolding handle_signal

  pub handle_value : Value → Result Graph
  handle_value (signal k i) = handle_signal (signal k i)
  handle_value constant = ok empty
  handle_value (operator vs) = handle_values empty vs
  handle_value (cat vs) = handle_values empty vs
  handle_value (slice v) = handle_signal v
  handle_value other = key_error

  pub handle_values : Graph → Values → Result Graph
  handle_values g no_values = ok g
  handle_values g (value v vs) = handle_value v >>= λ h. handle_values (merge g h) vs

-- `for n in nr: edges.add((n, ...))`
unfoldable pub edges_to : ℕ → Nodes → Edges
edges_to target [] = []
edges_to target (n ∷ ns) = (n.0, target) ∷ edges_to target ns

-- `next(iter(nl))`, of the one node of the left side.
unfoldable pub first_key : Nodes → ℕ
first_key [] = 0
first_key (n ∷ ns) = n.0

unfoldable pub handle_assign : Value → Value → Result Graph
unfolding handle_signal handle_value edges_to first_key
handle_assign l r = handle_signal l >>= λ gl. handle_value r >>= λ gr. ok (record {
  nodes = update gl.nodes gr.nodes;
  edges = (gl.edges ++ gr.edges) ++ edges_to (first_key gl.nodes) gr.nodes;
})

-- The handlers of statements. Neither a condition nor a test is visited.
unfoldable mutual
  unfolding handle_assign

  pub handle : Statement → Result Graph
  handle (assign l r) = handle_assign l r
  handle (if_ c t f) = handle_statements empty t >>= λ g. handle_statements g f
  handle (case_ t cs) = handle_cases empty cs

  pub handle_statements : Graph → Statements → Result Graph
  handle_statements g no_statements = ok g
  handle_statements g (statement s ss) = handle s >>= λ h. handle_statements (merge g h) ss

  pub handle_cases : Graph → Cases → Result Graph
  handle_cases g no_cases = ok g
  handle_cases g (case k ss cs) = handle_statements g ss >>= λ h. handle_cases h cs

-- The nodes, and the edges of the clocked and of the combinational statements.
pub record Picture : Type 0 where
  pub all_nodes : Nodes
  pub sync_edges : Edges
  pub comb_edges : Edges

-- The four loops over the statements of the module, which `module.sync` and `module.comb` both
-- give; the nodes are shared.
unfoldable pub picture : Statements → Statements → Result Picture
unfolding handle
picture sync comb = do
  a ← handle_statements empty sync
  b ← handle_statements (record { nodes = a.nodes; edges = [] }) comb
  c ← handle_statements (record { nodes = b.nodes; edges = a.edges }) sync
  d ← handle_statements (record { nodes = c.nodes; edges = b.edges }) comb
  ok (record { all_nodes = d.nodes; sync_edges = c.edges; comb_edges = d.edges })

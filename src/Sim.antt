-- ===== src/Sim.antt =====
-- `Module.sim` of pypga/core/module.py: what a simulation asks of each signal in each step, and the
-- lists that it returns. The simulated Migen module is a parameter: the value of a signal, an
-- assignment to it, and the end of a cycle.
pub mod Steps
mod Tests
use pypga.Base.{ℕ, zero, suc, ◌+◌, ◌==◌, if◌then◌else◌, List, [], ◌∷◌, ◌++◌, Option, none, some}
use pypga.Base.Int.{ℤ}
use pypga.Instance.{Name}

-- What is asked for a signal: nothing but its value, the values of some steps, or a function of the
-- step and of other signals.
pub data Query : Type 0 where
  watched : Query
  table : List (ℕ × ℤ) → Query
  driven : List Name → (ℕ → List ℤ → ℤ) → Query

-- `if i in v: ... v[i]`
unfoldable pub entry : ℕ → List (ℕ × ℤ) → Option ℤ
entry i [] = none
entry i (e ∷ es) = let rest = entry i es in if e.0 == i then some e.1 else rest

-- The empty list of each query.
unfoldable pub no_results : List (Name × Query) → List (List ℤ)
no_results [] = []
no_results (q ∷ qs) = [] ∷ no_results qs

module _ {S : Type 0} (value : Name → S → ℤ) (assign : Name → ℤ → S → S) (cycle : S → S) where
  -- `kwargs`, in the order of the arguments.
  unfoldable pub arguments : List Name → S → List ℤ
  arguments [] s = []
  arguments (n ∷ ns) s = value n s ∷ arguments ns s

  -- What a query does to its signal before it is read.
  unfoldable pub drive : ℕ → Name → Query → S → S
  unfolding entry arguments
  drive i n watched s = s
  drive i n (table es) s = elim (entry i es) [ none ↦ s | some v ↦ assign n v s ]
  drive i n (driven ns f) s = assign n (f i (arguments ns s)) s

  -- The loop over the queries, in one step: `results[k].extend([val]*2)`.
  unfoldable pub ask_all : ℕ → List (Name × Query) → List (List ℤ) → S → List (List ℤ) × S
  unfolding drive
  ask_all i [] rs s = ([], s)
  ask_all i (q ∷ qs) [] s = ([], s)
  ask_all i (q ∷ qs) (r ∷ rs) s =
      let t : S = drive i q.0 q.1 s in
      let v : ℤ = value q.0 t in
      let rest = ask_all i qs rs t in ((r ++ (v ∷ v ∷ [])) ∷ rest.0, rest.1)

  -- So many steps from step i on, with `t` and `results`.
  unfoldable pub steps :
      ℕ → ℕ → List (Name × Query) → List ℕ × List (List ℤ) → S → List ℕ × List (List ℤ)
  unfolding ask_all
  steps zero i qs (t, rs) s = (t, rs)
  steps (suc n) i qs (t, rs) s =
      let r = ask_all i qs rs s in steps n (i + 1) qs (t ++ (i ∷ (i + 1) ∷ []), r.0) (cycle r.1)

  unfoldable pub sim : ℕ → List (Name × Query) → S → List ℕ × List (List ℤ)
  unfolding steps no_results
  sim num_steps qs s = steps num_steps 0 qs ([], no_results qs) s

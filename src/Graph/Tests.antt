-- ===== src/Graph/Tests.antt =====
-- A design with a conditional assignment of a sum, and a wire.
use pypga.Base.{ℕ, ◌≡◌, refl, ◌↔◌, ◌⊎◌, false, [], ◌∷◌}
use pypga.Graph.{
  update, Value, signal, constant, operator, value, no_values, assign, if_, Statements, statement,
  no_statements, Info, Picture, picture, ok,
}
use pypga.Graph.Sets.{In, Joins}
use pypga.Graph.Flow.{AssignedIn, FlowsIn}
use pypga.Graph.Design.{picture_lem}

abbrev info : Info
info = record { label = []; nbits = 4; is_signed = false }

abbrev wire : ℕ → Value
wire k = signal k info

abbrev sync : Statements
sync =
    statement
      (if_ (wire 9)
        (statement (assign (wire 1) (operator (value (wire 2) (value (wire 3) no_values))))
          no_statements)
        (statement (assign (wire 1) constant) no_statements))
      no_statements

abbrev comb : Statements
comb = statement (assign (wire 4) (wire 1)) no_statements

abbrev drawn : Picture
drawn = record {
  all_nodes = (1, info) ∷ (2, info) ∷ (3, info) ∷ (4, info) ∷ [];
  sync_edges = (2, 1) ∷ (3, 1) ∷ (2, 1) ∷ (3, 1) ∷ [];
  comb_edges = (1, 4) ∷ (1, 4) ∷ [];
}

made : picture sync comb ≡ ok drawn
unfolding picture update
made = refl

picture_lem_example :
    ((k : ℕ) → In k drawn.all_nodes ↔ (AssignedIn k sync ⊎ AssignedIn k comb))
    × ((a b : ℕ) → Joins a b drawn.sync_edges ↔ FlowsIn a b sync)
    × ((a b : ℕ) → Joins a b drawn.comb_edges ↔ FlowsIn a b comb)
picture_lem_example = picture_lem sync comb drawn made

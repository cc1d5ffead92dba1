-- ===== src/Process/Tests.antt =====
-- A board on which the second of two binaries runs, and which had its FPGA flashed 3 seconds ago.
use pypga.Base.{◌≡◌, refl, ◌+◌, ◌==◌, ℕ, if◌then◌else◌, true, List, [], ◌∷◌, none, some}
use pypga.Base.Int.{pos}
use pypga.Process.{Command, launch, ask_age, Board, ready, create}
use pypga.Process.Serving.{Settled, create-Settled}

abbrev text : Command → List ℕ
text (launch f t) = if f == 1 then 10 ∷ b's' ∷ b'h' ∷ [] else []
text ask_age = b'x' ∷ 10 ∷ 32 ∷ b'3' ∷ 10 ∷ []
text c = b's' ∷ 10 ∷ b'h' ∷ []

abbrev board : Board
board = record {
  reply = λ es c. text c;
  uploads = λ es. true;
  int = λ line. elim line [ [] ↦ none | c ∷ cs ↦ if c == b'3' then some (pos 3) else none ];
}

second_runs : (create board (λ n. n + 40) true true (1 ∷ 2 ∷ [])).0 ≡ ready (some 41)
unfolding create
second_runs = refl

create-Settled_example : Settled (create board (λ n. n + 40) true true (1 ∷ 2 ∷ []))
create-Settled_example = create-Settled board (λ n. n + 40) true true (1 ∷ 2 ∷ [])

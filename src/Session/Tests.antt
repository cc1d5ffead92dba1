-- ===== src/Session/Tests.antt =====
-- A board on which the only binary runs, and one extra shell that can be opened at the second try.
use pypga.Base.{◌≡◌, refl, ◌+◌, true, false, [], ◌∷◌, none, some}
use pypga.Process.{Board, create}
use pypga.Session.{Interface, create_interface}
use pypga.Session.Ends.{Connected, Stopped, created-Stopped}

abbrev board : Board
board = record { reply = λ es c. b'#' ∷ []; uploads = λ es. true; int = λ line. none }

abbrev session : Interface
session = record {
  server = (create board (λ n. n + 40) true true (1 ∷ [])).1;
  client_token = some 40;
  client_open = true;
  extra_shell = false;
}

created : create_interface board (λ n. n + 40) (λ t. true) (1 ∷ []) ≡ some session
unfolding create_interface
created = refl

created-Stopped_example : Connected session × Stopped false (false ∷ true ∷ []) session
created-Stopped_example =
    created-Stopped board (λ n. n + 40) (λ t. true) (1 ∷ []) session false (false ∷ true ∷ [])
      created

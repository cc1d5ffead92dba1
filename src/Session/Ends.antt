-- ===== src/Session/Ends.antt =====
-- How a session begins and ends.
use pypga.Base.{
  ◌≡◌, refl, ap, ◌∙◌, ℕ, Bool, true, false, Bool-cases, inl, inr, ◌||◌, not, List, [], ◌∷◌, Option,
  none, some, arith,
}
use mathlib.Core.Path.{subst}
use pypga.Process.{Board, State, Outcome, ready, not_started, upload_failed, stop, create}
use pypga.Process.Serving.{serving, Settled, create-Settled}
use pypga.Session.{
  Interface, connect, create_interface, open_extra_shell, stop_interface, use_shells,
}

-- An interface whose client is connected to the server that runs.
abbrev pub Connected : Interface → Type 0
Connected i =
    (serving i.server.events ≡ i.client_token)
    × (i.server.token ≡ i.client_token)
    × (i.client_open ≡ true)
    × (i.extra_shell ≡ false)

-- What there is, if there is an interface.
abbrev pub IfCreated : (Interface → Type 0) → Option Interface → Type 0
IfCreated P none = Unit
IfCreated P (some i) = P i

connect-Connected :
    (accepts : Option ℕ → Bool) (r : Outcome × State)
    → Settled r
    → IfCreated Connected (connect accepts r)
unfolding connect
connect-Connected accepts (ready t, s) (h, v, e) = elim (Bool-cases (accepts t)) [
  | inl a ↦ rw a (v, e, refl, refl)
  | inr f ↦ rw f tt
]
connect-Connected accepts (not_started, s) h = tt
connect-Connected accepts (upload_failed, s) h = tt

-- Whether some use has opened a shell.
abbrev pub opened : List Bool → Bool
opened [] = false
opened (c ∷ cs) = c || opened cs

use_shells-keeps :
    (cs : List Bool) (i : Interface)
    → (Interface.extra_shell (use_shells cs i) ≡ i.extra_shell || opened cs)
unfolding use_shells open_extra_shell
use_shells-keeps [] i = ground arith
use_shells-keeps (c ∷ cs) i = ground (arith, use_shells-keeps cs (open_extra_shell c i))

use_shells-open :
    (cs : List Bool) (i : Interface) → (Interface.client_open (use_shells cs i) ≡ i.client_open)
unfolding use_shells open_extra_shell
use_shells-open [] i = refl
use_shells-open (c ∷ cs) i = ground (arith, use_shells-open cs (open_extra_shell c i))

-- What there is behind a stop.
abbrev pub Stopped : Bool → List Bool → Interface → Type 0
Stopped sends cs i =
    let r : Bool × Interface = stop_interface sends (use_shells cs i) in
    (serving (Interface.server r.1).events ≡ none)
    × ((Interface.server r.1).token ≡ none)
    × (Interface.client_open r.1 ≡ not sends)
    × (r.0 ≡ not (opened cs))

stopped :
    (sends : Bool) (j : Interface)
    → (j.client_open ≡ true)
    → let r : Bool × Interface = stop_interface sends j in
      (serving (Interface.server r.1).events ≡ none)
      × ((Interface.server r.1).token ≡ none)
      × (Interface.client_open r.1 ≡ not sends)
      × (r.0 ≡ not j.extra_shell)
unfolding stop_interface stop
stopped sends j o = ground arith

stop-Stopped :
    (sends : Bool) (cs : List Bool) (i : Interface)
    → i.client_open ≡ true
    → i.extra_shell ≡ false
    → Stopped sends cs i
stop-Stopped sends cs i o e =
    let (s, t, c, r) = stopped sends (use_shells cs i) (use_shells-open cs i ∙ o) in
    (s, t, c, r ∙ ap not (use_shells-keeps cs i ∙ ap (λ b. b || opened cs) e))

-- Whatever the board answers, and whichever shells can be opened: an interface comes about only
-- with a client that was made with the token of the server that runs. When it is stopped later, no
-- server runs and the token is forgotten; the socket of the client is closed exactly if the last
-- request could be sent; and the call raises exactly if an extra shell was opened meanwhile.
pub created-Stopped :
    (board : Board) (uuid : ℕ → ℕ) (accepts : Option ℕ → Bool) (files : List ℕ) (i : Interface)
    (sends : Bool) (cs : List Bool)
    → create_interface board uuid accepts files ≡ some i
    → Connected i × Stopped sends cs i
unfolding create_interface
created-Stopped board uuid accepts files i sends cs e =
    let c : Connected i = subst (IfCreated Connected) e (
      connect-Connected accepts (create board uuid true true files)
        (create-Settled board uuid true true files)) in
    (c, stop-Stopped sends cs i c.2 c.3)

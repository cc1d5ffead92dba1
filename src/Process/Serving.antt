-- ===== src/Process/Serving.antt =====
-- At most one server at a time, and the one whose token the object keeps.
use pypga.Base.{
  ◌≡◌, refl, ◌∙◌, sym, ℕ, Bool, true, false, Bool-cases, inl, inr, not, ◌&&◌, List, [], ◌∷◌, Option,
  none, some,
}
use pypga.Process.{
  killall, make_folder, enter_folder, empty_line, ask_age, flash, remove_bitstream, launch, Event,
  asked, put_bitstream, waited, Board, State, Outcome, ready, not_started, upload_failed, happen,
  ask, stop, flashed_recently, flash_bitstream, generate_new_token, launched, result, attempts,
  start, finish, create, has_sh,
}

-- The token of the server that runs, after some events.
abbrev pub serving : List Event → Option ℕ
serving [] = none
serving (asked (launch f t) ∷ es) = some t
serving (asked killall ∷ es) = none
serving (e ∷ es) = serving es

-- Whether it is known that no server runs.
abbrev pub quiet : List Event → Bool
quiet [] = false
quiet (asked (launch f t) ∷ es) = false
quiet (asked killall ∷ es) = true
quiet (e ∷ es) = quiet es

-- Whether each launch, and each flash of the FPGA, came when no server was running.
abbrev pub safe : List Event → Bool
safe [] = true
safe (asked (launch f t) ∷ es) = quiet es && safe es
safe (asked flash ∷ es) = quiet es && safe es
safe (e ∷ es) = safe es

-- The token that a call gives.
abbrev pub token_of : Outcome → Option ℕ
token_of (ready t) = t
token_of not_started = none
token_of upload_failed = none

-- What holds between the steps, and when a call is over.
abbrev Resting : State → Type 0
Resting s =
    (safe s.events ≡ true) × (quiet s.events ≡ true) × (serving s.events ≡ none) × (s.token ≡ none)

abbrev pub Settled : Outcome × State → Type 0
Settled (o, s) = (safe s.events ≡ true) × (serving s.events ≡ token_of o) × (s.token ≡ token_of o)

stop-Resting : (s : State) → safe s.events ≡ true → Resting (stop s)
unfolding stop
stop-Resting s h = (h, refl, refl, refl)

module _ (board : Board) (uuid : ℕ → ℕ) where
  launched-safe :
      (file : ℕ) (s : State) → Resting s → safe (launched board uuid file s).events ≡ true
  unfolding launched generate_new_token
  launched-safe file s (h, q, n, t) = elim (Bool-cases (board.uploads s.events)) [
    | inl u ↦ rw u (rw (q, h) refl)
    | inr f ↦ rw f (rw (q, h) refl)
  ]

  launched-serving :
      (file : ℕ) (s : State)
      → serving (launched board uuid file s).events ≡ (launched board uuid file s).token
  unfolding launched generate_new_token
  launched-serving file s = refl

  attempts-Settled :
      (files : List ℕ) (s : State) → Resting s → Settled (attempts board uuid files s)
  unfolding attempts
  attempts-Settled [] s (h, q, n, t) = (h, n, t)
  attempts-Settled (file ∷ files) s r =
      let t : State = ask empty_line (happen waited (launched board uuid file s)) in
      elim (Bool-cases (not (has_sh (result board uuid file s)))) [
        | inl runs ↦ rw runs (launched-safe file s r, launched-serving file s, refl)
        | inr fails ↦
            rw fails (attempts-Settled files (stop t) (stop-Resting t (launched-safe file s r)))
      ]

  start-Settled : (files : List ℕ) (s : State) → Resting s → Settled (start board uuid files s)
  unfolding start flashed_recently
  start-Settled files s r =
      let t : State = ask ask_age (ask empty_line s) in
      elim (Bool-cases (flashed_recently board uuid s).0) [
        | inl recent_flash ↦ rw recent_flash (attempts-Settled files (happen waited t) r)
        | inr no_flash ↦ rw no_flash (attempts-Settled files t r)
      ]

  finish-Settled :
      (starts : Bool) (files : List ℕ) (done : Bool) (s : State)
      → Resting s
      → Settled (finish board uuid starts files (done, s))
  unfolding finish
  finish-Settled true files true s r = start-Settled files s r
  finish-Settled false files true s (h, q, n, t) = (h, n ∙ sym t, refl)
  finish-Settled starts files false s (h, q, n, t) = (h, n, t)

  -- Whatever the board answers, and whichever uploads fail: no server is launched and the FPGA is
  -- not flashed while a server runs. When the start of a server object is over, the server that
  -- runs is the one whose token the object keeps and gives, if it gives one; otherwise, and after
  -- an exception, none runs and there is no token.
  pub create-Settled :
      (bitstream_given starts : Bool) (files : List ℕ)
      → Settled (create board uuid bitstream_given starts files)
  unfolding create flash_bitstream stop
  create-Settled bitstream_given starts files =
      let s : State =
        ask enter_folder
          (ask make_folder (stop (record { events = []; token = none; generated = 0 }))) in
      let rest : Resting s = (refl, refl, refl, refl) in
      elim (Bool-cases bitstream_given) [
        | inl given ↦ elim (Bool-cases (board.uploads s.events)) [
          | inl put ↦
              rw (given, put)
                (finish-Settled starts files true
                  (ask remove_bitstream (ask flash (stop (happen put_bitstream s))))
                  (refl, refl, refl, refl))
          | inr lost ↦ rw (given, lost) (finish-Settled starts files false s rest)
        ]
        | inr missing ↦ rw missing (finish-Settled starts files true s rest)
      ]

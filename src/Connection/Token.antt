-- ===== src/Connection/Token.antt =====
-- The exchange of tokens between the client and the server.
use pypga.Base.{
  ℕ, zero, suc, ◌+◌, ◌-◌, ◌≤◌, ◌<◌, ◌≡◌, refl, ap, ◌∙◌, false, Bool-cases, inl, inr, if◌then◌else◌,
  List, [], ◌∷◌, ◌++◌, Option, some, ltb, ltb→lt, length, length-append, length-take, length-drop,
  take, drop, take-append-drop, arith,
}
use mathlib.Core.List.{append-nil, append_assoc}
use pypga.Client.{is_empty, same_bytes}
use mathlib.Core.Path.{ap₂}
use pypga.Client.Receive.{is_empty-take}
use pypga.Connection.{
  c_string, judge, Started, connected, wrong_token, confirmation, confirm_loop, start, authenticate,
}

-- The bytes that have been sent and not received. A `recv` with a limit of a byte at least hands
-- over some of them, at most as many as the limit, and the others stay.
abbrev pub Delivers : {S : Type 0} → (S → List ℕ) → (ℕ → S → List ℕ × S) → Type 0
Delivers {S} pending recv =
    (limit : ℕ) (s : S)
    → 1 ≤ limit
    → (k : ℕ) × (k ≤ limit)
      × (1 ≤ length (pending s) → 1 ≤ k)
      × ((recv limit s).0 ≡ take k (pending s))
      × (pending (recv limit s).1 ≡ drop k (pending s))

pub grows : (xs : List ℕ) → is_empty xs ≡ false → 1 ≤ length xs
unfolding is_empty
grows [] h = absurd (ground arith)
grows (x ∷ xs) h = omega arith

pub empty_of : (xs : List ℕ) → length xs ≡ 0 → xs ≡ []
empty_of [] h = refl
empty_of (x ∷ xs) h = absurd (omega arith)

pub joined :
    (received whole new rest : List ℕ) (k : ℕ)
    → new ≡ take k whole
    → rest ≡ drop k whole
    → (received ++ new) ++ rest ≡ received ++ whole
joined received whole new rest k e d =
    append_assoc received new rest
    ∙ ap (λ l. received ++ l) (ap₂ ◌++◌ e d ∙ take-append-drop k whole)

pub retarget :
    {S : Type 0} (x : Option (List ℕ × S)) (a b : List ℕ) (t : S)
    → x ≡ some (a, t)
    → a ≡ b
    → x ≡ some (b, t)
retarget x a b t e d = e ∙ ap (λ l. some (l, t)) d

length-authenticate :
    (token sent : List ℕ)
    → length token ≡ 32
    → length sent ≡ 32
    → length (authenticate token sent).0 ≡ 32
unfolding authenticate
length-authenticate token sent h w =
    elim (Bool-cases (same_bytes (c_string sent) (c_string token))) [
      | inl same ↦ rw (w, same) refl
      | inr other ↦ rw (w, other) h
    ]

judge-authenticate :
    {S : Type 0} (recv : ℕ → S → List ℕ × S) (token sent p : List ℕ) (t : S)
    → same_bytes token confirmation ≡ false
    → length sent ≡ 32
    → p ≡ (authenticate token sent).0
    → judge recv (some (p, t))
      ≡ some (if (authenticate token sent).1 then connected else wrong_token token, t)
unfolding authenticate judge same_bytes
judge-authenticate recv token sent p t distinct w e =
    ap (λ l. judge recv (some (l, t))) e
    ∙ elim (Bool-cases (same_bytes (c_string sent) (c_string token))) [
      | inl same ↦ rw (w, same) refl
      | inr other ↦ rw (w, other, distinct) refl
    ]

module _ {S : Type 0} (recv : ℕ → S → List ℕ × S) where
  loop_ends :
      (rounds : ℕ) (received : List ℕ) (s : S)
      → 32 ≤ length received + rounds
      → (r : List ℕ × S) × (confirm_loop recv rounds received s ≡ some r)
  unfolding confirm_loop
  loop_ends zero received s h = ((received, s), ground arith)
  loop_ends (suc rounds) received s h = elim (Bool-cases (ltb (length received) 32)) [
    | inl more ↦ elim (Bool-cases (is_empty (recv (32 - length received) s).0)) [
      | inl nothing ↦ (
        (received ++ (recv (32 - length received) s).0, (recv (32 - length received) s).1),
        rw (more, nothing) refl,
      )
      | inr something ↦
          let new = recv (32 - length received) s in
          let (r, e) =
            loop_ends rounds (received ++ new.0) new.1
              (omega (arith, length-append received new.0, grows new.0 something)) in
          (r, rw (more, something) e)
    ]
    | inr done ↦ ((received, s), rw done refl)
  ]

  -- Whatever the socket does, the start of a client ends: 32 rounds of its loop suffice.
  pub start-ends : (s : S) → (r : Started × S) × (start recv 32 s ≡ some r)
  unfolding start judge
  start-ends s =
      let ((received, t), e) = loop_ends 32 (recv 32 s).0 (recv 32 s).1 (omega arith) in
      (
        (if same_bytes received confirmation then connected else wrong_token received, t),
        ap (judge recv) e,
      )

  module _ (pending : S → List ℕ) (delivers : Delivers pending recv) where
    -- What is still to come arrives, in any pieces.
    loop_receives :
        (rounds : ℕ) (received : List ℕ) (s : S)
        → 32 ≤ length received + rounds
        → length received + length (pending s) ≡ 32
        → (t : S) × (confirm_loop recv rounds received s ≡ some (received ++ pending s, t))
    unfolding confirm_loop
    loop_receives zero received s h whole =
        let none_left : pending s ≡ [] = empty_of (pending s) (omega arith) in
        let full : ltb (length received) 32 ≡ false = ground arith in
        (s, rw (full, none_left, append-nil) refl)
    loop_receives (suc rounds) received s h whole = elim (Bool-cases (ltb (length received) 32)) [
      | inl more ↦
          let below : length received < 32 = ltb→lt (length received) 32 more in
          let (k, within, some_, got, left) = delivers (32 - length received) s (omega arith) in
          let new = recv (32 - length received) s in
          let size : length new.0 ≡ k = ap length got ∙ omega (arith, length-take k (pending s)) in
          let fewer : length (pending new.1) ≡ length (pending s) - k =
            ap length left ∙ length-drop k (pending s) in
          let something : is_empty new.0 ≡ false =
            ap is_empty got ∙ is_empty-take k (pending s) (some_ (omega arith)) (omega arith) in
          let (t, e) =
            loop_receives rounds (received ++ new.0) new.1
              (omega (arith, length-append received new.0, some_ (omega arith)))
              (omega (arith, length-append received new.0)) in
          (
            t,
            rw (more, something)
                (retarget _ _ (received ++ pending s) t e
                  (joined received (pending s) new.0 (pending new.1) k got left)),
          )
      | inr done ↦
          let none_left : pending s ≡ [] = empty_of (pending s) (ground arith) in
          (s, rw (done, none_left, append-nil) refl)
    ]

    -- What arrives first, and what the loop adds, is all that was sent.
    start_receives :
        (s : S)
        → length (pending s) ≡ 32
        → (t : S) × (start recv 32 s ≡ judge recv (some (pending s, t)))
    unfolding start
    start_receives s whole =
        let (k, within, some_, got, left) = delivers 32 s (omega arith) in
        let first = recv 32 s in
        let size : length first.0 ≡ k = ap length got ∙ omega (arith, length-take k (pending s)) in
        let fewer : length (pending first.1) ≡ length (pending s) - k =
          ap length left ∙ length-drop k (pending s) in
        let (t, e) = loop_receives 32 first.0 first.1 (omega arith) (omega arith) in
        (
          t,
          ap (judge recv) (
              retarget _ _ (pending s) t e
                (joined [] (pending s) first.0 (pending first.1) k got left)),
        )

    -- A client that sent its token, and to which the answer of the server is on the way and nothing
    -- else, is connected exactly when the server goes on to serve, and else has an error with the
    -- token of the server, in whatever pieces the answer arrives. The token of the server has 32
    -- bytes and is not the confirmation, and the server has read 32 bytes.
    pub start-authenticate :
        (token sent : List ℕ) (s : S)
        → length token ≡ 32
        → length sent ≡ 32
        → same_bytes token confirmation ≡ false
        → pending s ≡ (authenticate token sent).0
        → (t : S) × (start recv 32 s
            ≡ some (if (authenticate token sent).1 then connected else wrong_token token, t))
    start-authenticate token sent s whole sent_whole distinct on_way =
        let (t, e) =
          start_receives s (ap length on_way ∙ length-authenticate token sent whole sent_whole) in
        (t, e ∙ judge-authenticate recv token sent (pending s) t distinct sent_whole on_way)

-- ===== src/Connection/Clearing.antt =====
-- What a wrong acknowledgement leaves on the socket.
use mathlib.Core.Path.{subst}
use mathlib.Core.Path.{subst}
use pypga.Base.{
  Option, none, some, Option-cases, take, drop, ℕ, zero, suc, ◌-◌, ◌≤◌, ◌≡◌, refl, ap, ◌∙◌, true,
  false, Bool-cases, inl, inr, List, [], ◌∷◌, length, length-take, length-drop, arith,
}
use Prim.Native.Nat.{min}
use pypga.Client.{is_empty, same_bytes}
use pypga.Connection.{clear_rounds, clear_socket, check_acknowledgement}
use pypga.Connection.Token.{grows, empty_of}

pub empty-length : (xs : List ℕ) → is_empty xs ≡ true → length xs ≡ 0
unfolding is_empty
empty-length [] h = refl
empty-length (x ∷ xs) h = absurd (ground arith)

-- What a call gave, with the bytes that were on the way before and that are after: some of them, at
-- most as many as the limit, or with nothing on the way the time-out, or the empty piece of a
-- connection that is closed.
abbrev pub Received : ℕ → List ℕ → List ℕ → Option (List ℕ) → Type 0
Received limit before after none = (before ≡ []) × (after ≡ [])
Received limit before after (some data_) =
    (k : ℕ) × (k ≤ limit)
    × (1 ≤ length before → 1 ≤ k)
    × (data_ ≡ take k before)
    × (after ≡ drop k before)

abbrev pub Clears : {S : Type 0} → (S → List ℕ) → (ℕ → S → Option (List ℕ) × S) → Type 0
Clears {S} pending recv =
    (limit : ℕ) (s : S)
    → 1 ≤ limit
    → Received limit (pending s) (pending (recv limit s).1) (recv limit s).0

module _ {S : Type 0} (recv : ℕ → S → Option (List ℕ) × S) (pending : S → List ℕ)
    (clears : Clears pending recv) where
  -- As many rounds as bytes drop them all.
  rounds_clear :
      (rounds : ℕ) (s : S)
      → length (pending s) ≤ rounds
      → ((clear_rounds recv rounds s).0 ≡ length (pending s))
        × (length (pending (clear_rounds recv rounds s).1) ≡ 0)
  unfolding clear_rounds
  rounds_clear zero s h = (omega arith, omega arith)
  rounds_clear (suc rounds) s h = elim (Option-cases (recv 16384 s).0) [
    | inl late ↦
        let (over, after) =
          subst (Received 16384 (pending s) (pending (recv 16384 s).1)) late
            (clears 16384 s (omega arith)) in
        rw (late, over, after) (refl, refl)
    | inr (data_, got_) ↦
        let (k, within, some_, got, left) =
          subst (Received 16384 (pending s) (pending (recv 16384 s).1)) got_
            (clears 16384 s (omega arith)) in
        let t : S = (recv 16384 s).1 in
        let size : length data_ ≡ min k (length (pending s)) =
          ap length got ∙ length-take k (pending s) in
        let fewer : length (pending t) ≡ length (pending s) - k =
          ap length left ∙ length-drop k (pending s) in
        elim (Bool-cases (is_empty data_)) [
          | inl nothing ↦
              let none_ : length data_ ≡ 0 = empty-length data_ nothing in
              let over : length (pending s) ≡ 0 = ground arith in
              rw (got_, nothing) (omega arith, omega arith)
          | inr something ↦
              let size_ : 1 ≤ length data_ = grows data_ something in
              let rest = rounds_clear rounds t (omega arith) in
              rw (got_, something) (omega (arith, rest.0), rest.1)
        ]
  ]

  -- A wrong acknowledgement is refused, and what else was on the way is dropped, so that the answer
  -- to the next request is the first that comes, if no more than 100 bytes were on the way: the
  -- connection may stay open, where the time-out ends the clearing, or be closed. A right
  -- acknowledgement is accepted, and leaves the socket as it is.
  pub check_acknowledgement-clears :
      (head ack : List ℕ) (s : S)
      → length (pending s) ≤ 100
      → ((check_acknowledgement recv head ack s).0 ≡ same_bytes ack head)
        × (same_bytes ack head ≡ true → (check_acknowledgement recv head ack s).1 ≡ s)
        × (same_bytes ack head ≡ false → pending (check_acknowledgement recv head ack s).1 ≡ [])
  unfolding check_acknowledgement clear_socket
  check_acknowledgement-clears head ack s h = elim (Bool-cases (same_bytes ack head)) [
    | inl same ↦ rw same (refl, λ e. refl, λ e. absurd (ground arith))
    | inr other ↦
        rw other (refl, (λ e. absurd (ground arith)), λ e. empty_of _ (rounds_clear 100 s h).1)
  ]

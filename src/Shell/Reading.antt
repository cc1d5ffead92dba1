-- ===== src/Shell/Reading.antt =====
-- A read takes all the text that is ready, if it is ASCII.
use pypga.Base.{
  ℕ, zero, suc, ◌-◌, ◌≤◌, ◌<◌, ◌≡◌, refl, ap, sym, ◌∙◌, Bool, true, false, All, ◌∷◌, take, drop,
  Bool-cases, inl, inr, List, [], ◌++◌, some, length, length-drop, arith, ltb,
}
use pypga.Client.{is_empty}
use pypga.Client.Receive.{is_empty-take}
use pypga.Connection.Token.{Delivers, empty_of, joined}
use mathlib.Core.Path.{subst}
use pypga.Base.Options.{map_option}
use pypga.Shell.{read_nbytes, read_loop, read, decode_byte, decode_from, decode_utf8}

-- Bytes that are characters by themselves.
abbrev pub Ascii : List ℕ → Type 0
Ascii = All (λ b. b < 128)

decode_utf8-Ascii : (bs : List ℕ) → Ascii bs → decode_utf8 bs ≡ some bs
unfolding decode_utf8 decode_from decode_byte
decode_utf8-Ascii [] h = refl
decode_utf8-Ascii (b ∷ bs) (h, hs) =
    let single : ltb b 128 ≡ true = ground arith in
    rw single (ap (map_option (λ text. b ∷ text)) (decode_utf8-Ascii bs hs))

take-Ascii : (k : ℕ) (bs : List ℕ) → Ascii bs → Ascii (take k bs)
take-Ascii zero bs h = tt
take-Ascii (suc k) [] h = tt
take-Ascii (suc k) (b ∷ bs) (h, hs) = (h, take-Ascii k bs hs)

drop-Ascii : (k : ℕ) (bs : List ℕ) → Ascii bs → Ascii (drop k bs)
drop-Ascii zero bs h = h
drop-Ascii (suc k) [] h = tt
drop-Ascii (suc k) (b ∷ bs) (h, hs) = drop-Ascii k bs hs

module _ {S : Type 0} (recv_ready : S → Bool) (recv : ℕ → S → List ℕ × S) (pending : S → List ℕ)
    (delivers : Delivers pending recv)
    (ready : (s : S) → recv_ready s ≡ ltb 0 (length (pending s))) where
  reads_all :
      (rounds : ℕ) (sumstring : List ℕ) (s : S)
      → length (pending s) < rounds
      → Ascii (pending s)
      → (t : S) × (read_loop recv_ready recv rounds sumstring s
          ≡ some (some (sumstring ++ pending s), t))
        × (pending t ≡ [])
  unfolding read_loop read_nbytes is_empty
  reads_all zero sumstring s h ascii = absurd (omega arith)
  reads_all (suc rounds) sumstring s h ascii = elim (Bool-cases (recv_ready s)) [
    | inl some_text ↦
        let (k, within, moves, got, left) = delivers 1024 s (omega arith) in
        let waiting : 1 ≤ length (pending s) = ground (arith, ready s) in
        let new = recv 1024 s in
        let fewer : length (pending new.1) ≡ length (pending s) - k =
          ap length left ∙ length-drop k (pending s) in
        let something : is_empty new.0 ≡ false =
          ap is_empty got ∙ is_empty-take k (pending s) (moves waiting) waiting in
        let text : decode_utf8 new.0 ≡ some new.0 =
          decode_utf8-Ascii new.0 (subst Ascii (sym got) (take-Ascii k (pending s) ascii)) in
        let (t, e, done) =
          reads_all rounds (sumstring ++ new.0) new.1 (omega (arith, moves waiting))
            (subst Ascii (sym left) (drop-Ascii k (pending s) ascii)) in
        (
          t,
          rw (some_text, text, something)
              (e
                ∙ ap (λ l. some (some l, t))
                    (joined sumstring (pending s) new.0 (pending new.1) k got left)),
          done,
        )
    | inr quiet ↦
        let nothing : pending s ≡ [] = empty_of (pending s) (ground (arith, ready s)) in
        (s, rw (quiet, nothing) refl, nothing)
  ]

  -- If the text that is ready is ASCII, a read returns all of it, in whatever pieces the channel
  -- hands it over, and leaves none: as many rounds of its loop suffice as there are characters, and
  -- one more. The channel is ready exactly when there is text.
  pub read-all :
      (s : S)
      → Ascii (pending s)
      → (t : S) × (read recv_ready recv (suc (length (pending s))) s ≡ some (some (pending s), t))
        × (pending t ≡ [])
  read-all s ascii = reads_all (suc (length (pending s))) [] s (omega arith) ascii

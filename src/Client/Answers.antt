-- ===== src/Client/Answers.antt =====
-- What the client makes of a whole answer.
use pypga.Base.{
  ℕ, ◌+◌, ◌*◌, ◌≤◌, ◌≡◌, refl, ap, ◌∙◌, sym, true, List, [], ◌∷◌, ◌++◌, arith, length,
  length-append, take, drop, take-append, drop-append,
}
use Prim.Native.Nat.{min}
use mathlib.Core.List.{append_assoc}
use pypga.Wire.{header, to_bytes}
use pypga.Wire.Codec.{Words, from_buffer-to_bytes}
use pypga.Client.{writes, write_header, received, Arrival, ok, acknowledged, same_bytes, answer}
use pypga.Client.Receive.{Progress, receive_lem}

same_bytes_refl : (xs : List ℕ) → same_bytes xs xs ≡ true
unfolding same_bytes
same_bytes_refl [] = refl
same_bytes_refl (x ∷ xs) = ground (arith, same_bytes_refl xs)

-- An answer that begins with the header of its request gives the words behind it.
pub answer_lem :
    (head vs rest : List ℕ) (arrivals : List Arrival)
    → length head ≡ 8
    → Words vs
    → Progress arrivals
    → length vs * 4 + 8 ≤ length arrivals
    → answer head (length vs) arrivals (head ++ (to_bytes vs ++ rest)) ≡ ok (vs, rest)
unfolding answer acknowledged
answer_lem head vs rest arrivals h w p sched =
    rw
      (
        receive_lem (length vs * 4 + 8) arrivals (head ++ (to_bytes vs ++ rest)) p (omega arith)
            enough sched,
        front,
        back,
      )
      (rw
        (
          take-append 8 head (to_bytes vs) h,
          same_bytes_refl head,
          drop-append 8 head (to_bytes vs) h,
          (from_buffer-to_bytes vs w).0,
        )
        refl)
  where
    enough : length vs * 4 + 8 ≤ length (head ++ (to_bytes vs ++ rest))
    enough = omega (
      arith,
      length-append head (to_bytes vs ++ rest),
      length-append (to_bytes vs) rest,
      (from_buffer-to_bytes vs w).1,
    )

    size : length (head ++ to_bytes vs) ≡ length vs * 4 + 8
    size = omega (arith, length-append head (to_bytes vs), (from_buffer-to_bytes vs w).1)

    front : take (length vs * 4 + 8) (head ++ (to_bytes vs ++ rest)) ≡ head ++ to_bytes vs
    front =
        ap (take (length vs * 4 + 8)) (sym (append_assoc head (to_bytes vs) rest))
        ∙ take-append (length vs * 4 + 8) (head ++ to_bytes vs) rest size

    back : drop (length vs * 4 + 8) (head ++ (to_bytes vs ++ rest)) ≡ rest
    back =
        ap (drop (length vs * 4 + 8)) (sym (append_assoc head (to_bytes vs) rest))
        ∙ drop-append (length vs * 4 + 8) (head ++ to_bytes vs) rest size

acknowledged_lem : (head : List ℕ) → acknowledged head head ≡ ok tt
unfolding acknowledged
acknowledged_lem head = rw (same_bytes_refl head) refl

length-write_header : (addr : ℕ) (values : List ℕ) → length (write_header addr values) ≡ 8
unfolding write_header header
length-write_header addr values = refl

received_whole :
    (a : Arrival) (head rest : List ℕ)
    → length head ≡ 8
    → 8 ≤ a.available
    → received 8 a (head ++ rest) ≡ head
unfolding received
received_whole a head rest size whole =
    ap (λ n. take n (head ++ rest)) {x = min 8 a.available} {y = 8} (omega arith)
    ∙ take-append 8 head rest size

-- A write is done when its header comes back in one piece.
pub writes_lem :
    (addr : ℕ) (values : List ℕ) (a : Arrival) (later : List Arrival) (rest : List ℕ)
    → 8 ≤ a.available
    → writes addr values (a ∷ later) (write_header addr values ++ rest) ≡ ok rest
unfolding writes
writes_lem addr values a later rest whole =
    rw (received_whole a (write_header addr values) rest (length-write_header addr values) whole) (
      rw
        (
          acknowledged_lem (write_header addr values),
          drop-append 8 (write_header addr values) rest (length-write_header addr values),
        )
        refl)

-- ===== src/Client/Receive.antt =====
-- The answer of the server does not depend on how its bytes arrive.
use pypga.Base.{
  ℕ, zero, suc, ◌+◌, ◌-◌, ◌≤◌, ◌<◌, ◌≡◌, refl, ap, ◌∙◌, true, false, List, [], ◌∷◌, ◌++◌, arith,
  All, length, length-take, length-drop, ltb→lt, length-append, take-split, take, drop, Bool-cases,
  inl, inr, ltb,
}
use Prim.Native.Nat.{min}
use pypga.Client.{Arrival, Result, ok, receive, receive_loop, received, is_empty}
use mathlib.Core.List.{append-nil, append_assoc}

-- Every `recv` hands over a byte at least.
abbrev pub Progress : List Arrival → Type 0
Progress = All (λ (a : Arrival). 1 ≤ a.available)

-- What one `recv` takes, when there is something to take.
received-size :
    (limit : ℕ) (a : Arrival) (stream : List ℕ)
    → limit ≤ length stream
    → length (received limit a stream) ≡ min limit a.available
unfolding received
received-size limit a stream h = omega (arith, length-take (min limit a.available) stream)

pub is_empty-take : (n : ℕ) (xs : List ℕ) → 1 ≤ n → 1 ≤ length xs → is_empty (take n xs) ≡ false
unfolding is_empty
is_empty-take zero xs h k = absurd (omega arith)
is_empty-take (suc n) [] h k = absurd (omega arith)
is_empty-take (suc n) (x ∷ xs) h k = refl

is_empty-received :
    (need : ℕ) (data_ : List ℕ) (a : Arrival) (stream : List ℕ)
    → 1 ≤ a.available
    → need ≤ length data_ + length stream
    → ltb (length data_) need ≡ true
    → is_empty (received (need - length data_) a stream) ≡ false
unfolding received
is_empty-received need data_ a stream p enough more =
    let below : length data_ < need = ltb→lt _ _ more in
    is_empty-take (min (need - length data_) a.available) stream (omega arith) (omega arith)

-- The bytes of one `recv` and the missing ones behind it are the missing ones before it.
joined :
    (need : ℕ) (data_ stream : List ℕ) (j : ℕ)
    → length data_ ≤ need
    → need ≤ length data_ + length stream
    → j ≤ need - length data_
    → ◌≡◌ {A = Result (List ℕ × List ℕ)}
        (ok (
          (data_ ++ take j stream)
              ++ take
                  (need - length (data_ ++ take j stream))
                  (drop (length (take j stream)) stream),
          drop (need - length (data_ ++ take j stream)) (drop (length (take j stream)) stream),
        ))
        (ok (data_ ++ take (need - length data_) stream, drop (need - length data_) stream))
joined need data_ stream j small enough h =
    let size : length (take j stream) ≡ j = omega (arith, length-take j stream) in
    let fewer : need - length (data_ ++ take j stream) ≡ need - length data_ - j =
      omega (arith, length-append data_ (take j stream), size) in
    let (front, back) = take-split j (need - length data_) stream h in
    rw (fewer, size, append_assoc, front, back)

receive_loop-ok :
    (need : ℕ) (data_ : List ℕ) (arrivals : List Arrival) (stream : List ℕ)
    → Progress arrivals
    → length data_ ≤ need
    → need ≤ length data_ + length stream
    → need ≤ length data_ + length arrivals
    → receive_loop need data_ arrivals stream
      ≡ ok (data_ ++ take (need - length data_) stream, drop (need - length data_) stream)
unfolding receive_loop
receive_loop-ok need data_ [] stream p small enough sched =
    let full : need - length data_ ≡ 0 = omega arith in
    let test : ltb (length data_) need ≡ false = ground arith in rw (test, full, append-nil)
receive_loop-ok need data_ (a ∷ later) stream p small enough sched =
    let got = received (need - length data_) a stream in
    let size : length got ≡ min (need - length data_) a.available =
      received-size (need - length data_) a stream (omega arith) in
    let more_data : length (data_ ++ got) ≡ length data_ + length got = length-append data_ got in
    let fewer : length (drop (length got) stream) ≡ length stream - length got =
      length-drop (length got) stream in
    elim (Bool-cases (ltb (length data_) need)) [
      | inl more ↦
          rw (more, is_empty-received need data_ a stream p.0 enough more)
            (receive_loop-ok need (data_ ++ got) later (drop (length got) stream) p.1 (ground arith)
                (ground arith) (ground arith)
              ∙ joined need data_ stream (min (need - length data_) a.available) small enough
                  (omega arith))
      | inr done ↦ let full : need - length data_ ≡ 0 = ground arith in rw (done, full, append-nil)
    ]

-- However the bytes arrive, the answer that was asked for is received whole and in order, and what
-- is behind it stays on the socket: if enough has been sent, every `recv` hands over a byte
-- at least, and there are as many of them as bytes to receive.
pub receive_lem :
    (need : ℕ) (arrivals : List Arrival) (stream : List ℕ)
    → Progress arrivals
    → 1 ≤ need
    → need ≤ length stream
    → need ≤ length arrivals
    → receive need arrivals stream ≡ ok (take need stream, drop need stream)
unfolding receive
receive_lem need [] stream p some_ enough sched = absurd (omega arith)
receive_lem need (a ∷ later) stream p some_ enough sched =
    let got = received need a stream in
    let size : length got ≡ min need a.available = received-size need a stream enough in
    let fewer : length (drop (length got) stream) ≡ length stream - length got =
      length-drop (length got) stream in
    receive_loop-ok need got later (drop (length got) stream) p.1 (omega arith) (omega arith)
      (omega (arith, p.0))
    ∙ joined need [] stream (min need a.available) (omega arith) (omega arith) (omega arith)
    ∙ ap (λ k. ok (take k stream, drop k stream)) {x = need - 0} {y = need} (omega arith)

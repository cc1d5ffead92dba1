-- ===== src/Client.antt =====
-- pypga/core/interface/remote/client.py: the requests of the client, and what it makes of the bytes
-- that come back over the socket.
pub mod Receive
pub mod Answers
use pypga.Base.{
  ℕ, zero, suc, ◌+◌, ◌-◌, ◌*◌, ◌^◌, Bool, true, false, ◌&&◌, List, [], ◌∷◌, ◌++◌, ltb, leb, ◌==◌,
  if◌then◌else◌, length, take, drop,
}
use Prim.Native.Nat.{min}
use pypga.Wire.{header, ram_header, to_bytes, from_buffer}

-- `TimeoutError`, the `RuntimeError` of a wrong acknowledgement, the `ValueError` of a long RAM
-- read.
pub data Failure : Type 0 where
  timed_out wrong_acknowledgement too_long : Failure

-- `waiting`: the schedule of arrivals ends before the call does.
pub data Result {ℓ} (A : Type ℓ) : Type ℓ where
  ok : A → Result A
  err : Failure → Result A
  waiting : Result A

infixl 5 ◌>>=◌
abbrev pub ◌>>=◌ {ℓ κ} : {A : Type ℓ} {B : Type κ} → Result A → (A → Result B) → Result B
ok a >>= f = f a
err e >>= f = err e
waiting >>= f = waiting

-- One `recv`: how many bytes have arrived, and whether the clock is past `timeout_time` afterwards.
pub record Arrival : Type 0 where
  pub available : ℕ
  pub late : Bool

-- What `recv(limit)` takes from the bytes that the server has sent.
received : ℕ → Arrival → List ℕ → List ℕ
received limit a stream = take (min limit a.available) stream

unfoldable pub is_empty : List ℕ → Bool
is_empty [] = true
is_empty _ = false

-- `while len(data) < need`, over a schedule of arrivals.
receive_loop : ℕ → List ℕ → List Arrival → List ℕ → Result (List ℕ × List ℕ)
unfolding received is_empty
receive_loop need data_ [] stream = if ltb (length data_) need then waiting else ok (data_, stream)
receive_loop need data_ (a ∷ later) stream =
    let got = received (need - length data_) a stream in
    let rest = receive_loop need (data_ ++ got) later (drop (length got) stream) in
    if ltb (length data_) need
    then if is_empty got && a.late then err timed_out else rest
    else ok (data_, stream)

-- The first `recv` of an answer and the loop behind it: the bytes asked for, and those left over.
unfoldable pub receive : ℕ → List Arrival → List ℕ → Result (List ℕ × List ℕ)
unfolding receive_loop
receive need [] stream = waiting
receive need (a ∷ later) stream =
    let got = received need a stream in receive_loop need got later (drop (length got) stream)

unfoldable pub same_bytes : List ℕ → List ℕ → Bool
same_bytes [] [] = true
same_bytes [] (y ∷ ys) = false
same_bytes (x ∷ xs) [] = false
same_bytes (x ∷ xs) (y ∷ ys) = x == y && same_bytes xs ys

-- `_check_acknowledgement`; clearing the socket before the error is raised is left out.
unfoldable pub acknowledged : List ℕ → List ℕ → Result (Unit {0})
unfolding same_bytes
acknowledged head ack = if same_bytes ack head then ok tt else err wrong_acknowledgement

-- A length of `reads` is cut to 65535.
abbrev pub read_length : ℕ → ℕ
read_length n = if ltb 65535 n then 65535 else n

unfoldable pub read_request : ℕ → ℕ → List ℕ
unfolding header
read_request addr n = header b'r' (read_length n) addr

-- An answer of eight bytes of header and `words` words.
pub answer : List ℕ → ℕ → List Arrival → List ℕ → Result (List ℕ × List ℕ)
unfolding receive acknowledged from_buffer
answer head words arrivals stream = do
  (data_, rest) ← receive (words * 4 + 8) arrivals stream
  checked ← acknowledged head (take 8 data_)
  ok (from_buffer (drop 8 data_), rest)

-- `reads`, from the arrivals of the answer: the values, and the bytes left on the socket.
unfoldable pub reads : ℕ → ℕ → List Arrival → List ℕ → Result (List ℕ × List ℕ)
unfolding answer read_request
reads addr n arrivals stream = answer (read_request addr n) (read_length n) arrivals stream

-- `read_from_ram`; `none` of a request is the `ValueError` of a length of 2 ^ 23 or more.
unfoldable pub read_from_ram : ℕ → ℕ → List Arrival → List ℕ → Result (List ℕ × List ℕ)
unfolding answer ram_header
read_from_ram offset n arrivals stream =
    if leb (2 ^ 23) n then err too_long else answer (ram_header n offset) n arrivals stream

-- `writes` sends at most 65533 values: the header, then the words.
abbrev pub written : List ℕ → List ℕ
written values = take (65535 - 2) values

unfoldable pub write_header : ℕ → List ℕ → List ℕ
unfolding header
write_header addr values = header b'w' (length (written values)) addr

unfoldable pub write_request : ℕ → List ℕ → List ℕ
unfolding write_header to_bytes
write_request addr values = write_header addr values ++ to_bytes (written values)

-- One `recv(8)` for the acknowledgement of a write.
pub writes : ℕ → List ℕ → List Arrival → List ℕ → Result (List ℕ)
unfolding acknowledged write_header
writes addr values [] stream = waiting
writes addr values (a ∷ later) stream =
    let ack = received 8 a stream in
    acknowledged (write_header addr values) ack >>= λ checked. ok (drop (length ack) stream)

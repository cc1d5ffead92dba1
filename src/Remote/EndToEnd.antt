-- ===== src/Remote/EndToEnd.antt =====
-- A read or a write of the client, answered by the server.
use pypga.Base.{
  ℕ, ◌+◌, ◌*◌, ◌/◌, ◌^◌, ◌≤◌, ◌<◌, ◌≡◌, ◌==◌, refl, ap₂, ◌∙◌, true, List, [], ◌∷◌, ◌++◌, arith,
  length, take, drop, take-append, drop-append, length-take,
}
use mathlib.Core.List.{append_assoc}
use pypga.Wire.{header, to_bytes, byte}
use pypga.Wire.Codec.{Words, word_of-byte, from_buffer-to_bytes}
use pypga.Server.Values.{LoadsWords, read_values-Words}
use pypga.Server.{Device, replied, serve, read_values, write_values}
use pypga.Client.{
  answer, Arrival, ok, reads, writes, read_request, read_length, write_header, write_request,
  written,
}
use pypga.Client.Receive.{Progress}
use pypga.Client.Answers.{answer_lem, writes_lem}

-- A length of 16 bits from its two bytes.
two_bytes : (n : ℕ) → n ≤ 65535 → byte n + byte (n / 256) * 256 ≡ n
two_bytes n h = omega arith

-- The server, on the request for `n` words.
serve-read_request :
    (dev : Device) (stale addr n : ℕ) (s : Device.State dev) (unread : List ℕ)
    → addr < 2 ^ 32
    → n ≤ 65535
    → serve dev stale (read_request addr n ++ unread) s
      ≡ replied
          (read_request addr n ++ to_bytes (read_values dev addr n s).0)
          unread
          (read_values dev addr n s).1
unfolding serve read_request header
serve-read_request dev stale addr n s unread a l =
    rw (kept, word_of-byte addr a, two_bytes n l) refl
  where
    kept : read_length n ≡ n
    kept = ground arith

length-read_request : (addr n : ℕ) → length (read_request addr n) ≡ 8
unfolding read_request header
length-read_request addr n = refl

reads-answer :
    (addr n : ℕ) (vs : List ℕ) (arrivals : List Arrival) (rest : List ℕ)
    → n ≤ 65535
    → length vs ≡ n
    → Words vs
    → Progress arrivals
    → n * 4 + 8 ≤ length arrivals
    → reads addr n arrivals ((read_request addr n ++ to_bytes vs) ++ rest) ≡ ok (vs, rest)
unfolding reads
reads-answer addr n vs arrivals rest l size w p sched =
    ap₂ (λ k stream. answer (read_request addr n) k arrivals stream) kept
      (append_assoc (read_request addr n) (to_bytes vs) rest)
    ∙ answer_lem (read_request addr n) vs rest arrivals (length-read_request addr n) w p
        (omega arith)
  where
    kept : read_length n ≡ length vs
    kept = ground arith

module _ (dev : Device) (words : LoadsWords dev) where
  open dev use {State}

  -- The server reads the request of the client for at most 65535 words, loads them from the device,
  -- and the client gets what was loaded; the bytes behind request and answer stay where they are.
  -- The address has 32 bits, a load gives 32-bit words, and the answer arrives in pieces of a byte
  -- or more each, of which as many are looked at as it has bytes.
  pub read_end_to_end :
      (stale addr n : ℕ) (s : State) (arrivals : List Arrival) (unread rest : List ℕ)
      → addr < 2 ^ 32
      → n ≤ 65535
      → Progress arrivals
      → n * 4 + 8 ≤ length arrivals
      → let (vs, s') = read_values dev addr n s in
        (reply : List ℕ) × (serve dev stale (read_request addr n ++ unread) s
          ≡ replied reply unread s')
        × (reads addr n arrivals (reply ++ rest) ≡ ok (vs, rest))
  unfolding reads
  read_end_to_end stale addr n s arrivals unread rest a l p sched =
      let (w, size) = read_values-Words dev words addr n s in
      (
        read_request addr n ++ to_bytes (read_values dev addr n s).0,
        serve-read_request dev stale addr n s unread a l,
        reads-answer addr n (read_values dev addr n s).0 arrivals rest l size w p sched,
      )

-- A write of the values that fit in one request.
serve-write_request :
    (dev : Device) (stale addr : ℕ) (values unread : List ℕ) (s : Device.State dev)
    → addr < 2 ^ 32
    → Words (written values)
    → length (written values) ≤ 65535
    → serve dev stale (write_request addr values ++ unread) s
      ≡ replied (write_header addr values) unread (write_values dev stale addr (written values) s)
unfolding serve write_request write_header header
serve-write_request dev stale addr values unread s a w l =
    rw
      (
        word_of-byte addr a,
        two_bytes (length (written values)) l,
        front,
        back,
        (from_buffer-to_bytes (written values) w).0,
      )
      (rw (whole) refl)
  where
    size : length (to_bytes (written values)) ≡ length (written values) * 4
    size = omega (arith, (from_buffer-to_bytes (written values) w).1)

    whole : length (to_bytes (written values)) == length (written values) * 4 ≡ true
    whole = ground (arith, size)

    front :
        take (length (written values) * 4) (to_bytes (written values) ++ unread)
        ≡ to_bytes (written values)
    front = take-append (length (written values) * 4) (to_bytes (written values)) unread size

    back : drop (length (written values) * 4) (to_bytes (written values) ++ unread) ≡ unread
    back = drop-append (length (written values) * 4) (to_bytes (written values)) unread size

written_fits : (values : List ℕ) → length (written values) ≤ 65535
written_fits values = omega (arith, length-take 65533 values)

-- The server takes the request of the client off its input, writes the values to the device, at
-- most 65533 of them, and the client accepts the acknowledgement, if it comes in one piece; the
-- bytes behind request and answer stay where they are. The address and the values have 32 bits.
pub write_end_to_end :
    (dev : Device) (stale addr : ℕ) (values : List ℕ) (s : Device.State dev) (a : Arrival)
    (unread rest : List ℕ)
    → addr < 2 ^ 32
    → Words (written values)
    → 8 ≤ a.available
    → (reply : List ℕ) × (serve dev stale (write_request addr values ++ unread) s
        ≡ replied reply unread (write_values dev stale addr (take 65533 values) s))
      × (writes addr values (a ∷ []) (reply ++ rest) ≡ ok rest)
write_end_to_end dev stale addr values s a unread rest small w whole = (
  write_header addr values,
  serve-write_request dev stale addr values unread s small w (written_fits values),
  writes_lem addr values a [] rest whole,
)

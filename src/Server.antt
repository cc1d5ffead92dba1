-- ===== src/Server.antt =====
-- pypga/core/interface/remote/server/server.c: what the server answers to one command, for any
-- device behind the memory map. An `unsigned long` has four bytes on the board.
pub mod Values
use pypga.Base.{
  ℕ, zero, suc, ◌+◌, ◌*◌, ◌/◌, ◌%◌, ◌^◌, List, [], ◌∷◌, ◌++◌, Option, none, some, ltb, ◌==◌,
  if◌then◌else◌, length, get_elem?, take, drop,
}
use pypga.Wire.{to_bytes, from_buffer, word_of}

-- A device answers loads and stores of words, and both may change it.
pub record Device : Type 1 where
  pub State : Type 0
  pub load : ℕ → State → ℕ × State
  pub store : ℕ → ℕ → State → State
  pub ram : State → ℕ → ℕ

-- What becomes of one command: a reply, the input behind the command and the new state; or the end
-- of the process, asked for or not.
pub data Outcome {ℓ} (S : Type ℓ) : Type ℓ where
  replied : List ℕ → List ℕ → S → Outcome S
  closed : Outcome S
  failed : Outcome S

-- `n` bytes of the memory from an address on.
bytes_at : (ℕ → ℕ) → ℕ → ℕ → List ℕ
bytes_at memory addr zero = []
bytes_at memory addr (suc n) = memory addr ∷ bytes_at memory (addr + 1) n

module _ (dev : Device) where
  open dev use {State, load, store, ram}

  -- The loop of `read_values` for more than one value, from index `i` on: select the index, load.
  unfoldable pub read_indexed : ℕ → ℕ → ℕ → State → List ℕ × State
  read_indexed addr i zero s = ([], s)
  read_indexed addr i (suc n) s =
      let (v, s') = load addr (store addr (i * 2 + 1) s) in
      let (vs, s'') = read_indexed addr (i + 1) n s' in (v ∷ vs, s'')

  -- `read_values`: a length of 0 loads once too, and the value is not sent.
  unfoldable pub read_values : ℕ → ℕ → State → List ℕ × State
  unfolding read_indexed
  read_values addr len s =
      if ltb 1 len
      then read_indexed addr 0 len s
      else (let (v, s') = load addr s in (take len (v ∷ []), s'))

  -- The loop of `write_values` for more than one value: select the index, store the shifted value.
  unfoldable pub write_indexed : ℕ → ℕ → List ℕ → State → State
  write_indexed addr i [] s = s
  write_indexed addr i (v ∷ vs) s =
      write_indexed addr (i + 1) vs (store addr (v * 2 % 2 ^ 32) (store addr (i * 2 + 1) s))

  -- `write_values`; with a length of 0 the word that the buffer still holds is stored.
  unfoldable pub write_values : ℕ → ℕ → List ℕ → State → State
  unfolding write_indexed
  write_values stale addr [] s = store addr stale s
  write_values stale addr (v ∷ []) s = store addr v s
  write_values stale addr (v ∷ w ∷ vs) s = write_indexed addr 0 (v ∷ w ∷ vs) s

  -- A write command whose header has been read.
  write_command : ℕ → List ℕ → ℕ → ℕ → List ℕ → State → Outcome State
  unfolding write_values
  write_command stale head addr len rest s =
      if length (take (len * 4) rest) == len * 4
      then replied head (drop (len * 4) rest)
          (write_values stale addr (from_buffer (take (len * 4) rest)) s)
      else failed

  -- A read of the RAM: the length has three bytes here.
  ram_command : List ℕ → ℕ → ℕ → List ℕ → State → Outcome State
  unfolding bytes_at
  ram_command head addr points rest s =
      replied (head ++ bytes_at (ram s) (addr % 2 ^ 25) (points * 4)) rest s

  read_command : List ℕ → ℕ → ℕ → List ℕ → State → Outcome State
  unfolding read_values
  read_command head addr len rest s =
      let (vs, s') = read_values addr len s in replied (head ++ to_bytes vs) rest s'

  -- One round of the service loop, on the input that the client has sent.
  unfoldable pub serve : ℕ → List ℕ → State → Outcome State
  unfolding read_command ram_command write_command
  serve stale (a ∷ b ∷ c ∷ d ∷ e ∷ f ∷ g ∷ h ∷ rest) s =
      let head = a ∷ b ∷ c ∷ d ∷ e ∷ f ∷ g ∷ h ∷ [] in
      let addr = word_of e f g h in
      let len = c + d * 256 in
      if a == b'r'
      then read_command head addr len rest s
      else if a == b'd'
      then ram_command head addr (b + c * 256 + d * 65536) rest s
      else if a == b'w'
      then write_command stale head addr len rest s
      else if a == b'c'
      then closed
      else failed
  serve stale _ s = failed

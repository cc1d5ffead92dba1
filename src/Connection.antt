-- ===== src/Connection.antt =====
-- pypga/core/interface/remote/client.py: how `Client.start` opens a connection, and how a wrong
-- acknowledgement clears the socket. The receiving end of the socket is a parameter: `recv` gives
-- the bytes of one call; at the start, a call that raises the time-out of the socket is left out. What the
-- server answers to a token is that of pypga/core/interface/remote/server/server.c.
pub mod Token
pub mod Clearing
mod Tests
use pypga.Base.{
  ℕ, zero, suc, ◌+◌, ◌-◌, Bool, true, false, if◌then◌else◌, List, [], ◌∷◌, ◌++◌, Option, none, some,
  ltb, length, replicate, ◌==◌,
}
use pypga.Client.{is_empty, same_bytes}

-- `b"1" * 32`
abbrev pub confirmation : List ℕ
confirmation = replicate 32 b'1'

-- `wrong_token` is the `RuntimeError`, which shows what came in place of the confirmation.
pub data Started : Type 0 where
  connected : Started
  wrong_token : List ℕ → Started

module _ {S : Type 0} (recv : ℕ → S → List ℕ × S) where
  -- `while len(data) < 32`, in so many rounds; `none` when they do not suffice.
  unfoldable pub confirm_loop : ℕ → List ℕ → S → Option (List ℕ × S)
  unfolding is_empty
  confirm_loop zero received s = if ltb (length received) 32 then none else some (received, s)
  confirm_loop (suc rounds) received s =
      let new = recv (32 - length received) s in
      let rest = confirm_loop rounds (received ++ new.0) new.1 in
      if ltb (length received) 32
      then if is_empty new.0 then some (received ++ new.0, new.1) else rest
      else some (received, s)

  -- The comparison with the confirmation.
  unfoldable pub judge : Option (List ℕ × S) → Option (Started × S)
  unfolding same_bytes
  judge none = none
  judge (some (received, t)) =
      some (if same_bytes received confirmation then connected else wrong_token received, t)

  -- `start`, behind the sending of the token.
  unfoldable pub start : ℕ → S → Option (Started × S)
  unfolding confirm_loop judge
  start rounds s = let first = recv 32 s in judge (confirm_loop rounds first.0 first.1)

-- `_clear_socket`: here `none` is the time-out of a call, which ends the loop as an exception. The
-- `finally` of its only caller replaces it by the `RuntimeError`.
module _ {S : Type 0} (recv : ℕ → S → Option (List ℕ) × S) where
  -- What a round gave, what it left, and what the rounds behind it do.
  abbrev pub cleared : Option (List ℕ) → S → ℕ × S → ℕ × S
  cleared none t rest = (0, t)
  cleared (some data_) t rest = if is_empty data_ then (0, t) else (length data_ + rest.0, rest.1)

  -- From a round on: the bytes that are dropped.
  unfoldable pub clear_rounds : ℕ → S → ℕ × S
  unfolding is_empty
  clear_rounds zero s = (0, s)
  clear_rounds (suc rounds) s =
      let new = recv 16384 s in let rest = clear_rounds rounds new.1 in cleared new.0 new.1 rest

  unfoldable pub clear_socket : S → ℕ × S
  unfolding clear_rounds
  clear_socket s = clear_rounds 100 s

  -- `_check_acknowledgement` of an acknowledgement: false is the `RuntimeError`.
  unfoldable pub check_acknowledgement : List ℕ → List ℕ → S → Bool × S
  unfolding same_bytes clear_socket
  check_acknowledgement head ack s =
      if same_bytes ack head then (true, s) else (false, (clear_socket s).1)

-- The bytes that `strcmp` compares: those before the first 0.
unfoldable pub c_string : List ℕ → List ℕ
c_string [] = []
c_string (b ∷ bs) = let rest = c_string bs in if b == 0 then [] else b ∷ rest

-- The authentication of the server, for what it has read of the socket: what it sends, and whether
-- it goes on to serve. Anything but 32 bytes is an error without an answer.
unfoldable pub authenticate : List ℕ → List ℕ → List ℕ × Bool
unfolding same_bytes c_string
authenticate token sent =
    if length sent == 32
    then (if same_bytes (c_string sent) (c_string token)
        then (confirmation, true)
        else (token, false))
    else ([], false)

-- ===== src/Launch.antt =====
-- pypga/core/interface/remote/server.py: how `Server.start` tries the binaries of the C server, one
-- after the other. The shell on the board is a parameter.
pub mod Attempts
mod Tests
use pypga.Base.{
  ℕ, zero, suc, ◌+◌, Bool, true, false, if◌then◌else◌, List, [], ◌∷◌, Option, none, some,
}

-- `self.token`, the binary that serves on the board and the token that it was given, and how many
-- tokens have been generated.
pub record State : Type 0 where
  pub token : Option ℕ
  pub serving : Option (ℕ × ℕ)
  pub generated : ℕ

-- `stop`: the server application on the board is killed.
unfoldable pub stop : State → State
stop s = record s { token = none; serving = none }

-- `uuid4` gives the tokens, and `runs` says of a binary that it starts on the board: the reply of
-- the shell has no `sh` in it.
module _ (uuid : ℕ → ℕ) (runs : ℕ → Bool) where
  generate_new_token : State → State
  generate_new_token s = record s { token = some (uuid s.generated); generated = s.generated + 1 }

  -- The command line with the binary, the port and a new token.
  launch : ℕ → State → State
  unfolding generate_new_token
  launch file s =
      let t : State = generate_new_token s in
      if runs file then record t { serving = some (file, uuid s.generated) } else t

  -- The loop over the binaries; `none` is the `RuntimeError` behind it. The result is `self.token`.
  attempts : List ℕ → State → Option ℕ × State
  unfolding launch stop
  attempts [] s = (none, s)
  attempts (file ∷ files) s =
      let t : State = launch file s in
      let rest = attempts files (stop t) in if runs file then (t.token, t) else rest

  -- `__init__` stops what runs before it calls `start`.
  unfoldable pub start : List ℕ → State → Option ℕ × State
  unfolding attempts stop
  start files s = attempts files (stop s)

-- ===== src/Process.antt =====
-- pypga/core/interface/remote/server.py, class Server: what the start of a server asks of the board.
-- The board is a parameter: what its shell answers to a command, and whether an upload succeeds, for
-- the events so far. The time of the delays is left out, their place among the events is not.

pub mod Serving
mod Tests
use pypga.Base.{
  ℕ, suc, ◌+◌, Bool, true, false, not, ◌&&◌, ◌||◌, ◌==◌, ltb, if◌then◌else◌, List, [], ◌∷◌, ◌++◌,
  Option, none, some,
}
use pypga.Base.Int.{ℤ, pos, negsuc}
use pypga.Timing.{lstrip, rstrip}

-- The commands for the shell; a launch names the binary and gives it a token.
pub data Command : Type 0 where
  interrupt killall make_folder enter_folder empty_line ask_age flash remove_bitstream : Command
  make_executable : Command
  launch : ℕ → ℕ → Command

pub data Event : Type 0 where
  asked : Command → Event
  put_bitstream : Event
  put_binary : ℕ → Event
  waited : Event

-- The board, for the events so far, the last one first.
pub record Board : Type 0 where
  pub reply : List Event → Command → List ℕ
  pub uploads : List Event → Bool
  pub int : List ℕ → Option ℤ

-- The object, with the number of tokens that have been generated.
pub record State : Type 0 where
  pub events : List Event
  pub token : Option ℕ
  pub generated : ℕ

-- The token that serves, or the exceptions of a start without success and of an upload.
pub data Outcome : Type 0 where
  ready : Option ℕ → Outcome
  not_started upload_failed : Outcome

abbrev pub happen : Event → State → State
happen e s = record s { events = e ∷ s.events }

-- `run`
abbrev pub ask : Command → State → State
ask c s = happen (asked c) s

-- `stop`
unfoldable pub stop : State → State
stop s = ask killall (ask interrupt (record s { token = none }))

-- `"sh" in result`
unfoldable pub has_sh : List ℕ → Bool
has_sh [] = false
has_sh (a ∷ []) = false
has_sh (a ∷ b ∷ cs) = let rest = has_sh (b ∷ cs) in a == b's' && b == b'h' || rest

-- `result.split("\n")`, with the start of a line.
unfoldable pub split_lines : List ℕ → List ℕ → List (List ℕ)
split_lines line [] = line ∷ []
split_lines line (c ∷ cs) =
    let rest = split_lines [] cs in
    let more = split_lines (line ++ (c ∷ [])) cs in if c == 10 then line ∷ rest else more

-- The age in the first line that is a number.
unfoldable pub first_age : (List ℕ → Option ℤ) → List (List ℕ) → Option ℤ
unfolding lstrip rstrip
first_age int [] = none
first_age int (line ∷ lines) =
    let rest = first_age int lines in
    elim (int (rstrip (lstrip line))) [ none ↦ rest | some age ↦ some age ]

abbrev pub recent : Option ℤ → Bool
recent none = false
recent (some (pos n)) = not (ltb 10 n)
recent (some (negsuc n)) = true

module _ (board : Board) (uuid : ℕ → ℕ) where
  -- `bitstream_flashed_recently`, with what it asks.
  unfoldable pub flashed_recently : State → Bool × State
  unfolding first_age split_lines
  flashed_recently s =
      let t : State = ask empty_line s in
      (recent (first_age board.int (split_lines [] (board.reply t.events ask_age))), ask ask_age t)

  -- `flash_bitstream`; the flag says that there was no exception.
  unfoldable pub flash_bitstream : State → Bool × State
  unfolding stop
  flash_bitstream s =
      if board.uploads s.events
      then (true, ask remove_bitstream (ask flash (stop (happen put_bitstream s))))
      else (false, s)

  unfoldable pub generate_new_token : State → State
  generate_new_token s = record s { token = some (uuid s.generated); generated = suc s.generated }

  -- One round of the loop over the binaries up to the launch; an upload that fails is only logged.
  unfoldable pub launched : ℕ → State → State
  unfolding generate_new_token
  launched file s =
      let t : State = if board.uploads s.events then happen (put_binary file) s else s in
      let u : State = generate_new_token (ask make_executable t) in
      ask (launch file (uuid t.generated)) u

  -- What the board answers to the launch, and to the empty line behind the delay.
  unfoldable pub result : ℕ → State → List ℕ
  unfolding generate_new_token launched
  result file s =
      let t : State = if board.uploads s.events then happen (put_binary file) s else s in
      let u : State = ask make_executable t in
      board.reply u.events (launch file (uuid t.generated))
      ++ board.reply (happen waited (launched file s)).events empty_line

  unfoldable pub attempts : List ℕ → State → Outcome × State
  unfolding launched result has_sh stop
  attempts [] s = (not_started, s)
  attempts (file ∷ files) s =
      let t : State = ask empty_line (happen waited (launched file s)) in
      let rest = attempts files (stop t) in
      if not (has_sh (result file s)) then (ready t.token, t) else rest

  -- `start`
  unfoldable pub start : List ℕ → State → Outcome × State
  unfolding flashed_recently attempts
  start files s =
      let r : Bool × State = flashed_recently s in
      attempts files (if r.0 then happen waited r.1 else r.1)

  -- What is left of `__init__` behind the bitstream.
  unfoldable pub finish : Bool → List ℕ → Bool × State → Outcome × State
  unfolding start
  finish starts files (true, s) = if starts then start files s else (ready s.token, s)
  finish starts files (false, s) = (upload_failed, s)

  -- `__init__`
  unfoldable pub create : Bool → Bool → List ℕ → Outcome × State
  unfolding stop flash_bitstream finish
  create bitstream_given starts files =
      let s : State =
        ask enter_folder
          (ask make_folder (stop (record { events = []; token = none; generated = 0 }))) in
      finish starts files (if bitstream_given then flash_bitstream s else (true, s))

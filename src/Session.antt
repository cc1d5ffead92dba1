-- ===== src/Session.antt =====
-- pypga/core/interface/remote/interface.py, class RemoteInterface: its start with a server and a
-- client, its extra shell, and its stop. The server is that of Process; whether the client is
-- accepted, and whether a shell can be opened, are parameters. Reads and writes are those of Remote.
pub mod Ends
mod Tests
use pypga.Base.{ℕ, Bool, true, false, if◌then◌else◌, List, [], ◌∷◌, Option, none, some}
use pypga.Process.{Board, State, Outcome, ready, not_started, upload_failed, stop, create}

-- The object: its server, the token that its client was made with, whether the socket of the client
-- is open, and `_extra_shell is not None`.
pub record Interface : Type 0 where
  pub server : State
  pub client_token : Option ℕ
  pub client_open : Bool
  pub extra_shell : Bool

-- `Client(...)` for the server behind its start; `none` is an exception of the server or the client.
unfoldable pub connect : (Option ℕ → Bool) → Outcome × State → Option Interface
connect accepts (ready t, s) =
    if accepts t
    then some (record { server = s; client_token = t; client_open = true; extra_shell = false })
    else none
connect accepts (not_started, s) = none
connect accepts (upload_failed, s) = none

-- `__init__`, with the bitstream of the results.
unfoldable pub create_interface : Board → (ℕ → ℕ) → (Option ℕ → Bool) → List ℕ → Option Interface
unfolding connect create
create_interface board uuid accepts files = connect accepts (create board uuid true true files)

-- The property `extra_shell`, for whether the connection of a shell succeeds.
unfoldable pub open_extra_shell : Bool → Interface → Interface
open_extra_shell connects i =
    if i.extra_shell then i else (if connects then record i { extra_shell = true } else i)

-- `client.stop`, for whether the sending of the last request succeeds. An error of the socket is only
-- logged, but the socket is closed only behind the sending.
abbrev pub stop_client : Bool → Interface → Interface
stop_client sends i = if sends then record i { client_open = false } else i

-- `stop`; the flag says that there was no exception. A shell has no `stop`, so that with an extra
-- shell there is an `AttributeError`.
unfoldable pub stop_interface : Bool → Interface → Bool × Interface
unfolding stop
stop_interface sends i =
    let j : Interface = record (stop_client sends i) { server = stop i.server } in
    if i.extra_shell then (false, j) else (true, j)

-- Some uses of `extra_shell`.
unfoldable pub use_shells : List Bool → Interface → Interface
unfolding open_extra_shell
use_shells [] i = i
use_shells (connects ∷ cs) i = use_shells cs (open_extra_shell connects i)

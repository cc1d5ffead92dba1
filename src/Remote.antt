-- ===== src/Remote.antt =====
-- The client and the server together: pypga/core/interface/remote/interface.py on top of client.py,
-- against server.c.
pub mod EndToEnd
mod Tests
use pypga.Base.{ℕ, zero, suc, ◌+◌, List, [], ◌∷◌, ◌++◌, Option, none, some}
use pypga.Client.{Result, ok, err, waiting, Arrival, reads, writes, ◌>>=◌}

-- A single value or a list, as `Union[int, List[int]]`.
pub data Value : Type 0 where
  one : ℕ → Value
  many : List ℕ → Value

-- A list of one value is returned as that value.
unwrap : List ℕ → Value
unwrap (v ∷ []) = one v
unwrap vs = many vs

-- `RemoteInterface.read_from_address`: the value and the bytes left on the socket.
unfoldable pub read_from_address : ℕ → ℕ → List Arrival → List ℕ → Result (Value × List ℕ)
unfolding unwrap reads
read_from_address address length arrivals stream =
    reads address length arrivals stream >>= λ r. ok (unwrap r.0, r.1)

-- The values that `write_to_address` hands to the client.
unfoldable pub write_value : Value → List ℕ
write_value (one v) = v ∷ []
write_value (many vs) = vs

unfoldable pub write_to_address : ℕ → Value → List Arrival → List ℕ → Result (List ℕ)
unfolding write_value
write_to_address address value arrivals stream = writes address (write_value value) arrivals stream

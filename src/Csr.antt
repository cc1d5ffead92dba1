-- ===== src/Csr.antt =====
-- pypga/core/interface/csrmap.py, the addresses that the build writes to csr.csv, and
-- pypga/core/interface/interface.py, which goes by them. The rows are taken as `csv` and `int(·,
-- 0)` give them.
pub mod Lookup
mod Tests
use pypga.Base.{
  ℕ, zero, suc, Bool, true, false, ◌&&◌, ◌==◌, if◌then◌else◌, List, [], ◌∷◌, Option, none, some,
}
use pypga.Base.Options.{◌>>=◌}
use pypga.Instance.{Name}

pub record Row : Type 0 where
  pub row_name : Name
  pub row_address : ℕ
  pub row_size : ℕ
  pub row_mode : Name

unfoldable pub same_name : Name → Name → Bool
same_name [] [] = true
same_name [] (y ∷ ys) = false
same_name (x ∷ xs) [] = false
same_name (x ∷ xs) (y ∷ ys) = x == y && same_name xs ys

-- A dict: an assignment replaces the value of the key, or appends.
module _ {V : Type 0} where
  unfoldable pub assign : Name → V → List (Name × V) → List (Name × V)
  unfolding same_name
  assign n v [] = (n, v) ∷ []
  assign n v (e ∷ d) = let rest = assign n v d in if same_name e.0 n then (n, v) ∷ d else e ∷ rest

  -- `none` is the `KeyError`.
  unfoldable pub lookup : Name → List (Name × V) → Option V
  unfolding same_name
  lookup n [] = none
  lookup n (e ∷ d) = let rest = lookup n d in if same_name e.0 n then some e.1 else rest

pub record CsrMap : Type 0 where
  pub address : List (Name × ℕ)
  pub size : List (Name × ℕ)
  pub mode : List (Name × Name)

abbrev pub empty : CsrMap
empty = record { address = []; size = []; mode = [] }

-- One round of the loop over the rows.
add_row : CsrMap → Row → CsrMap
unfolding assign
add_row m r = record {
  address = assign r.row_name r.row_address m.address;
  size = assign r.row_name r.row_size m.size;
  mode = assign r.row_name r.row_mode m.mode;
}

load_from : CsrMap → List Row → CsrMap
unfolding add_row
load_from m [] = m
load_from m (r ∷ rs) = load_from (add_row m r) rs

-- The constructor; without a file the map is empty.
unfoldable pub create : Option (List Row) → CsrMap
unfolding load_from
create none = empty
create (some rows) = load_from empty rows

-- `__getitem__`: the three look-ups, in order.
unfoldable pub get_item : CsrMap → Name → Option (ℕ × ℕ × Name)
unfolding lookup
get_item m n = do a ← lookup n m.address; s ← lookup n m.size; o ← lookup n m.mode; some (a, s, o)

-- What a board offers to `BaseInterface`: `read_from_address` and `write_to_address`, for any
-- state.
pub record Bus (V : Type 0) (S : Type 0) : Type 0 where
  pub read_from_address : ℕ → ℕ → S → List V × S
  pub write_to_address : ℕ → List V → S → S

unfoldable pub name_to_address : CsrMap → Name → Option ℕ
unfolding lookup
name_to_address m n = lookup n m.address

module _ {V S : Type 0} (bus : Bus V S) (m : CsrMap) where
  -- `read_array`; `read` has the length 1.
  unfoldable pub read_array : Name → ℕ → S → Option (List V × S)
  unfolding name_to_address
  read_array n len s = do a ← name_to_address m n; some (Bus.read_from_address bus a len s)

  -- `write_array`; `write` has one value.
  unfoldable pub write_array : Name → List V → S → Option S
  unfolding name_to_address
  write_array n vs s = do a ← name_to_address m n; some (Bus.write_to_address bus a vs s)

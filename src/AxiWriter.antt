-- ===== src/AxiWriter.antt =====
-- pypga/modules/migen/axiwriter.py, class MigenAxiWriter: single writes to the memory of the
-- processor over an AXI port of 64 bits.
pub mod Accepted
mod Tests
use pypga.Base.{ℕ, Bool, true, false, ◌&&◌, if◌then◌else◌, List, [], ◌∷◌, Option, none, some}
use pypga.Base.Circuit.{wrap}

pub record State : Type 0 where
  pub aw_valid : Bool
  pub w_valid : Bool

-- The arguments of the writer in a cycle, and what the port answers.
pub record Input : Type 0 where
  pub address : ℕ
  pub data_ : ℕ
  pub we : Bool
  pub aw_ready : Bool
  pub w_ready : Bool

abbrev pub power_on : State
power_on = record { aw_valid = false; w_valid = false }

-- One clock edge: the chain of `If`, `Elif` and `Else`, for the address and for the data.
unfoldable pub step : Input → State → State
step i s = record {
  aw_valid = if i.we then true else (if i.aw_ready then false else false);
  w_valid = if i.we then true else (if i.w_ready then false else false);
}

-- What the port is given in a cycle.
pub record Port : Type 0 where
  pub aw_addr : ℕ
  pub aw_len : ℕ
  pub aw_size : ℕ
  pub aw_burst : ℕ
  pub aw_cache : ℕ
  pub aw_is_valid : Bool
  pub w_data : ℕ
  pub w_strb : ℕ
  pub w_last : Bool
  pub w_is_valid : Bool
  pub b_ready : Bool

unfoldable pub port : Input → State → Port
port i s = record {
  aw_addr = wrap 32 i.address;
  aw_len = 0;
  aw_size = 3;
  aw_burst = 0;
  aw_cache = 15;
  aw_is_valid = s.aw_valid;
  w_data = wrap 64 i.data_;
  w_strb = 255;
  w_last = s.w_valid;
  w_is_valid = s.w_valid;
  b_ready = true;
}

-- ===== src/Memory.antt =====
-- `_Register._add_migen_commands` of pypga/core/register.py for a register with a depth: a memory
-- that the processor reaches through one CSR, an index at a time. The CSR is MiSoC's: what it puts
-- out in a cycle, its storage and the strobe of a write, is the input here, and what it takes, a
-- write enable and a value, is the output.
pub mod Cycles
pub mod Indexed
pub mod Protocol
mod Tests
use pypga.Base.{
  ℕ, zero, suc, ◌*◌, ◌/◌, ◌%◌, Bool, true, false, ◌&&◌, not, ◌==◌, if◌then◌else◌, List, [], ◌∷◌,
  Option, none, some, get_or, set, replicate, map,
}
use pypga.Base.Circuit.{wrap}
use mathlib.Core.List.{reverse}

-- `adr_width` is that of the address signals, which Migen sizes by the depth.
pub record Config : Type 0 where
  pub width : ℕ
  pub adr_width : ℕ
  pub readonly : Bool

-- The registers of the logic, and the memory. `read_adr` is the address that the port of the
-- processor has registered: its `dat_r` is the word at it.
pub record State : Type 0 where
  pub ps_adr : ℕ
  pub ps_dat_w : ℕ
  pub ps_we : Bool
  pub read_adr : ℕ
  pub pipeline_0 : Bool
  pub pipeline_1 : Bool
  pub csr_we : Bool
  pub memory : List ℕ

-- The CSR, and the port of the logic, which writes to a read-only register.
pub record Input : Type 0 where
  pub storage : ℕ
  pub re : Bool
  pub pl_adr : ℕ
  pub pl_dat_w : ℕ
  pub pl_we : Bool

-- `initial_data`, of raw values; `none` is a default of `None`.
unfoldable pub initial_data : ℕ → Bool → Option (List ℕ) → List ℕ
initial_data depth reverse_order none = replicate depth 0
initial_data depth reverse_order (some values) = if reverse_order then reverse values else values

abbrev pub power_on : List ℕ → State
power_on contents = record {
  ps_adr = 0;
  ps_dat_w = 0;
  ps_we = false;
  read_adr = 0;
  pipeline_0 = false;
  pipeline_1 = false;
  csr_we = false;
  memory = contents;
}

-- The lowest bit of a write says whether it is an index.
abbrev pub odd : ℕ → Bool
odd n = n % 2 == 1

abbrev pub update_index : Input → Bool
update_index i = i.re && odd i.storage

abbrev pub update_value : Input → Bool
update_value i = i.re && not (odd i.storage)

-- The port that writes to the memory.
next_memory : Config → Input → State → List ℕ
next_memory c i s =
    if c.readonly
    then (if i.pl_we
        then set s.memory (wrap c.adr_width i.pl_adr) (wrap c.width i.pl_dat_w)
        else s.memory)
    else (if s.ps_we then set s.memory s.ps_adr s.ps_dat_w else s.memory)

-- The statements that only a register that can be written has.
write_port : Config → Input → State → State
write_port c i s =
    if c.readonly
    then s
    else record s { ps_dat_w = wrap c.width (i.storage / 2); ps_we = update_value i }

-- One clock edge.
unfoldable pub step : Config → Input → State → State
unfolding next_memory write_port
step c i s = record (write_port c i s) {
  ps_adr = if update_index i then wrap c.adr_width (i.storage / 2) else s.ps_adr;
  read_adr = s.ps_adr;
  pipeline_0 = update_index i;
  pipeline_1 = s.pipeline_0;
  csr_we = s.pipeline_1;
  memory = next_memory c i s;
}

-- What the CSR is given to store when `csr_we` is high.
unfoldable pub dat_w : State → ℕ
dat_w s = get_or s.memory s.read_adr 0

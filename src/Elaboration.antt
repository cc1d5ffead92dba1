-- ===== src/Elaboration.antt =====
-- pypga/core/migen.py, class AutoMigenModule: how the Migen module of a module class is made, with
-- what the registers of pypga/core/register.py add to it. A register is taken with its attributes
-- as `__init_subclass__` leaves them; the logic functions are code of the user and a parameter.
pub mod Csrs
pub mod Logic
mod Tests
use pypga.Base.{
  ℕ, ◌+◌, Bool, true, false, ◌==◌, if◌then◌else◌, List, [], ◌∷◌, ◌++◌, Option, none, some,
}
use pypga.Base.Options.{◌>>=◌}
use pypga.Base.Int.{ℤ, pos}
use pypga.Instance.{Name}

-- The default of a register, of the class or of a subclass: an integer, which 0 is where none is
-- set, a sequence of values, or `None`.
pub data Default : Type 0 where
  number : ℤ → Default
  listed not_given : Default

abbrev pub is_number : Default → Bool
is_number (number n) = true
is_number listed = false
is_number not_given = false

-- An instance of `_Register`, or of its subclass for triggers; `in_ram` is a `ram_offset`.
pub record Register : Type 0 where
  pub trigger : Bool
  pub in_ram : Bool
  pub width : ℕ
  pub signed : Bool
  pub default : Default
  pub readonly : Bool
  pub depth : ℕ

-- A module class: `_pypga_registers`, `_pypga_submodules` and `_pypga_logic`.
mutual
  pub data Design : Type 0 where
    design : List (Name × Register) → Submodules → List ℕ → Design

  pub data Submodules : Type 0 where
    no_submodules : Submodules
    submodule : Name → Design → Submodules → Submodules

-- What a register adds: a signal with its width, sign and reset value; a CSR with its size and reset
-- value; an assignment of the CSR from the signal, and of the signal from the CSR; a name for
-- the `re` of a CSR; the memory of an array.
pub data Command : Type 0 where
  signal : Name → ℕ → Bool → Default → Command
  csr_status csr_storage : Name → ℕ → Default → Command
  drive_status drive_value : Name → Name → Command
  written : Name → Name → Command
  memory : Name → ℕ → ℕ → Bool → Command

-- A Migen module, with its submodules in the order in which they were added.
mutual
  pub data MigenModule : Type 0 where
    migen_module : List Command → Children → MigenModule

  pub data Children : Type 0 where
    no_children : Children
    with_child : Children → Name → MigenModule → Children

-- `f"{name}_csr"` and `f"{name}_re"`
abbrev pub name_csr : Name → Name
name_csr name = name ++ (b'_' ∷ b'c' ∷ b's' ∷ b'r' ∷ [])

abbrev pub name_re : Name → Name
name_re name = name ++ (b'_' ∷ b'r' ∷ b'e' ∷ [])

-- `_add_migen_commands` of a trigger register, which does not look at `omit_csr`.
abbrev pub trigger_commands : Register → Name → List Command
trigger_commands r name =
    csr_storage (name_csr name) r.width r.default ∷ written name (name_csr name) ∷ []

-- The CSR of a register that is no array.
abbrev pub value_commands : Register → Name → List Command
value_commands r name =
    if r.readonly
    then csr_status (name_csr name) r.width r.default ∷ drive_status (name_csr name) name ∷ []
    else csr_storage (name_csr name) r.width r.default
      ∷ drive_value name (name_csr name)
      ∷ written (name_re name) (name_csr name)
      ∷ []

-- The signal of the value.
abbrev pub value_signal : Register → Name → Command
value_signal r name =
    signal name r.width r.signed (if r.depth == 1 then r.default else number (pos 0))

-- `_add_migen_commands`; the logic of an array, and the values of its default, are those of the
-- module Memory. `none` is the `TypeError` of the loop over the default of an array that is an
-- integer.
unfoldable pub register_commands : Bool → Name → Register → Option (List Command)
register_commands omit_csr name r =
    if r.trigger
    then some (trigger_commands r name)
    else (if r.in_ram
        then some []
        else (if omit_csr
            then some (value_signal r name ∷ [])
            else (if r.depth == 1
                then some (value_signal r name ∷ value_commands r name)
                else (if is_number r.default
                    then none
                    else some (
                        value_signal r name
                        ∷ memory name r.width r.depth r.readonly
                        ∷ csr_storage (name_csr name) (r.width + 1) (number (pos 0))
                        ∷ [])))))

unfoldable pub registers_commands : Bool → List (Name × Register) → Option (List Command)
unfolding register_commands
registers_commands omit_csr [] = some []
registers_commands omit_csr (r ∷ rs) = register_commands omit_csr r.0 r.1 >>= λ cs.
    registers_commands omit_csr rs >>= λ ds. some (cs ++ ds)

unfoldable pub add_submodule : Name → MigenModule → MigenModule → MigenModule
add_submodule name child (migen_module cs ss) = migen_module cs (with_child ss name child)

-- The arguments of a logic function, and how its call ends: by returning, or by a `TypeError` or
-- another exception.
pub data Given : Type 0 where
  platform_and_soc platform_only nothing_given : Given

pub data Reply : Type 0 where
  returned raised_type_error raised_other : Reply

-- What a logic function does to its module, with the attribute that its result becomes. It stays
-- done when the function raises.
abbrev pub Call : Type 0
Call = ℕ → Given → MigenModule → Reply × MigenModule

-- `_add_logic_function`
unfoldable pub call_last : Reply × MigenModule → Option MigenModule
call_last (returned, m) = some m
call_last (raised_type_error, m) = none
call_last (raised_other, m) = none

unfoldable pub call_second : Call → ℕ → Reply × MigenModule → Option MigenModule
unfolding call_last
call_second call k (returned, m) = some m
call_second call k (raised_type_error, m) = call_last (call k nothing_given m)
call_second call k (raised_other, m) = none

unfoldable pub call_first : Call → ℕ → Reply × MigenModule → Option MigenModule
unfolding call_second
call_first call k (returned, m) = some m
call_first call k (raised_type_error, m) = call_second call k (call k platform_only m)
call_first call k (raised_other, m) = none

unfoldable pub add_logic_function : Call → ℕ → MigenModule → Option MigenModule
unfolding call_first
add_logic_function call k m = call_first call k (call k platform_and_soc m)

unfoldable pub add_logic : Call → List ℕ → MigenModule → Option MigenModule
unfolding add_logic_function
add_logic call [] m = some m
add_logic call (k ∷ ks) m = add_logic_function call k m >>= λ n. add_logic call ks n

-- `__init__`: registers, then submodules, then logic; `none` when a register or a logic
-- function raises.
module _ (call : Call) (omit_csr : Bool) where
  unfoldable mutual
    unfolding registers_commands add_submodule add_logic

    pub elaborate : Design → Option MigenModule
    elaborate (design rs ss ks) = registers_commands omit_csr rs >>= λ cs.
        add_submodules ss (migen_module cs no_children) >>= λ m. add_logic call ks m

    pub add_submodules : Submodules → MigenModule → Option MigenModule
    add_submodules no_submodules m = some m
    add_submodules (submodule name d ss) m =
        elaborate d >>= λ c. add_submodules ss (add_submodule name c m)

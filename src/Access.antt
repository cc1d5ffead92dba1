-- ===== src/Access.antt =====
-- `_Register.__get__` and `__set__` of pypga/core/register.py: a register as an attribute of a
-- module instance, over the interface of the board.
pub mod RoundTrip
mod Tests
use pypga.Base.{
  ℕ, zero, suc, ◌*◌, Bool, true, false, ◌&&◌, ◌||◌, not, ◌==◌, if◌then◌else◌, List, [], ◌∷◌, map,
  Option, none, some,
}
use mathlib.Core.List.{reverse}
use pypga.Base.Int.{ℤ}
use pypga.Register.{Spec}
use pypga.Register.Raw.{to_python, from_python}
use pypga.Instance.{Name, Instance, register_full_name}
use pypga.Csr.{CsrMap, Bus, read_array, write_array}

-- The class attributes that an access reads.
pub record Attributes : Type 0 where
  pub spec : Spec
  pub reg_name : Name
  pub depth : ℕ
  pub reverse_order : Bool
  pub readonly : Bool
  pub ram_offset : Option ℕ

pub data Value : Type 0 where
  one : ℤ → Value
  many : List ℤ → Value

-- The message of the `ValueError` for a register that cannot be set reads `self.instance`, which no
-- register has. A value of the wrong shape is a `TypeError`.
pub data Failure : Type 0 where
  attribute_error key_error type_error : Failure

pub data Result (A : Type 0) : Type 0 where
  ok : A → Result A
  err : Failure → Result A

has_ram : Option ℕ → Bool
has_ram none = false
has_ram (some o) = true

ordered : Bool → List ℤ → List ℤ
ordered true vs = reverse vs
ordered false vs = vs

-- `value[::2]`
unfoldable pub every_other : List ℤ → List ℤ
every_other [] = []
every_other (v ∷ []) = v ∷ []
every_other (v ∷ w ∷ vs) = v ∷ every_other vs

module _ {S : Type 0} (bus : Bus ℤ S) (read_from_ram : ℕ → ℕ → S → List ℤ × S) (m : CsrMap) where
  written : Option S → Result S
  written none = err key_error
  written (some s) = ok s

  set_one : Attributes → Instance → Value → S → Result S
  unfolding written
  set_one r i (one v) s =
      written (write_array bus m (register_full_name i r.reg_name) (from_python r.spec v ∷ []) s)
  set_one r i (many vs) s = err type_error

  set_many : Attributes → Instance → Value → S → Result S
  unfolding written ordered
  set_many r i (one v) s = err type_error
  set_many r i (many vs) s = written (
      write_array bus m (register_full_name i r.reg_name)
        (map (from_python r.spec) (ordered r.reverse_order vs)) s)

  pub set_register : Attributes → Instance → Value → S → Result S
  unfolding set_one set_many has_ram
  set_register r i value s =
      if r.readonly || has_ram r.ram_offset
      then err attribute_error
      else if r.depth == 1
      then set_one r i value s
      else set_many r i value s

  -- A read of one word gives the number, `[0]` of the answer.
  read_one : Spec → Option (List ℤ × S) → Result (Value × S)
  read_one r none = err key_error
  read_one r (some ([], s)) = err type_error
  read_one r (some (v ∷ vs, s)) = ok (one (to_python r v), s)

  read_many : Attributes → Option (List ℤ × S) → Result (Value × S)
  unfolding ordered
  read_many r none = err key_error
  read_many r (some (vs, s)) = ok (many (map (to_python r.spec) (ordered r.reverse_order vs)), s)

  get_bus : Attributes → Instance → S → Result (Value × S)
  unfolding read_one read_many
  get_bus r i s =
      if r.depth == 1
      then read_one r.spec (read_array bus m (register_full_name i r.reg_name) 1 s)
      else read_many r (read_array bus m (register_full_name i r.reg_name) r.depth s)

  get_ram : Attributes → ℕ → S → Result (Value × S)
  unfolding read_many every_other
  get_ram r offset s =
      let (vs, s') = read_from_ram offset (r.depth * 2) s in read_many r (some (every_other vs, s'))

  get_from : Attributes → Option ℕ → Instance → S → Result (Value × S)
  unfolding get_bus get_ram
  get_from r none i s = get_bus r i s
  get_from r (some offset) i s = get_ram r offset s

  pub get_register : Attributes → Instance → S → Result (Value × S)
  unfolding get_from
  get_register r i s = get_from r r.ram_offset i s

-- ===== src/Access/Tests.antt =====
-- A register array of two words of four bits, behind the server of the board.
use pypga.Base.{
  ℕ, ◌≡◌, refl, ap, ap₂, ◌∙◌, ◌<◌, ◌^◌, true, false, List, [], ◌∷◌, map, none, some, arith,
}
use pypga.Base.Int.{◌+ℤ◌, ℤ, pos, pos_part, negsuc}
use pypga.Register.{Spec}
use pypga.Instance.{Name, Instance, top, child, register_full_name}
use pypga.Csr.{CsrMap, Bus, name_to_address}
use pypga.Access.{Attributes, many, ok, set_register, get_register}
use pypga.Access.RoundTrip.{InRange, RawInRange, Keeps, array_round_trip}
use pypga.Server.{read_values, write_values}
use pypga.Memory.Indexed.{Array, array_device, read_values-write_values}

-- The integers of the client are the words of the server.
abbrev array_bus : Bus ℤ Array
array_bus = record {
  read_from_address =
      λ a n s. let (words, t) = read_values (array_device 4) a n s in (map pos words, t);
  write_to_address = λ a vs s. write_values (array_device 4) 0 a (map pos_part vs) s;
}

abbrev blank : Array
blank = record { words = 9 ∷ 8 ∷ []; index = 0; latched = 0 }

abbrev no_ram : ℕ → ℕ → Array → List ℤ × Array
no_ram o n s = ([], s)

abbrev spec : Spec
spec = record {
  width = 4;
  offset_from_python = negsuc 1;
  signed = false;
  min = none;
  max = none;
  from_ram = false;
  invert = false;
  bit = 0;
}

abbrev board : Instance
board = child (b'd' ∷ []) (top (b't' ∷ []))

-- The name t.d_x_csr.
abbrev full_name : Name
full_name = b't' ∷ b'.' ∷ b'd' ∷ b'_' ∷ b'x' ∷ b'_' ∷ b'c' ∷ b's' ∷ b'r' ∷ []

abbrev addresses : CsrMap
addresses = record { address = (full_name, 16) ∷ []; size = []; mode = [] }

abbrev register : ℕ → Attributes
register depth = record {
  spec = spec;
  reg_name = b'x' ∷ [];
  depth = depth;
  reverse_order = true;
  readonly = false;
  ram_offset = none;
}

known : name_to_address addresses (register_full_name board (b'x' ∷ [])) ≡ some 16
unfolding name_to_address register_full_name
known = refl

three_fits : InRange spec (pos 3)
unfolding ◌+ℤ◌
three_fits = omega arith

top_fits : InRange spec (pos 17)
unfolding ◌+ℤ◌
top_fits = omega arith

of_part : (v : ℤ) → RawInRange spec v → pos (pos_part v) ≡ v
of_part v h = ground arith

part_small : (v : ℤ) → RawInRange spec v → pos_part v < 2 ^ 4
part_small v h = ground arith

array_Keeps : Keeps array_bus spec 16 2 blank
array_Keeps [] size h = absurd (omega arith)
array_Keeps (v ∷ []) size h = absurd (omega arith)
array_Keeps (v ∷ w ∷ []) size (first, (second, h)) =
    ap (map pos)
      (read_values-write_values 4 0 16 (pos_part v) (pos_part w) [] blank (omega arith)
        (part_small v first, (part_small w second, tt)) (omega arith) (omega arith)).1
    ∙ ap₂ (λ x y. x ∷ y ∷ []) (of_part v first) (of_part w second)
array_Keeps (v ∷ w ∷ x ∷ vs) size h = absurd (omega arith)

array_round_trip_example :
    (s' : Array) × (s'' : Array) × (set_register array_bus no_ram addresses
        (register 2)
        board
        (many (pos 3 ∷ pos 17 ∷ []))
        blank
      ≡ ok s')
    × (get_register array_bus no_ram addresses (register 2) board s'
        ≡ ok (many (pos 3 ∷ pos 17 ∷ []), s''))
array_round_trip_example =
    array_round_trip array_bus no_ram addresses (register 2) board 16 (pos 3 ∷ pos 17 ∷ []) blank
      refl refl known array_Keeps (three_fits, (top_fits, tt)) refl (λ e. absurd (omega arith))

-- ===== src/Register/Tests.antt =====
-- Registers of the boards and of tests/integration/stemlab-125-14/test_signed_registers.py.
use pypga.Base.{◌≡◌, Bool, true, false, none, some, ◌≤◌, refl, arith}
use pypga.Base.Int.{ℤ, pos, negsuc, ◌+ℤ◌, ◌≤ℤ◌, ◌<ℤ◌}
use pypga.Register.{Spec, shifted}
use pypga.Register.Number
use pypga.Register.Number.RoundTrip.{
  Represents, Allowed, distance, to_python-from_python, write-Nearest,
}

-- An 8-bit register with an offset, signed or not.
abbrev byte : ℤ → Bool → Spec
byte offset signed = record {
  width = 8;
  offset_from_python = offset;
  signed = signed;
  min = none;
  max = none;
  from_ram = false;
  invert = true;
  bit = 3;
}

minus_128-Represents : Represents (byte (pos 1) true) (negsuc 127)
unfolding Number.int_min Number.int_max
minus_128-Represents = (omega arith, omega arith)

to_python-from_python_example :
    Number.to_python (byte (pos 1) true) (Number.from_python (byte (pos 1) true) (negsuc 127))
    ≡ negsuc 127
to_python-from_python_example =
    to_python-from_python (byte (pos 1) true) (omega arith) refl (negsuc 127) minus_128-Represents
      (unfold ◌+ℤ◌ Number.from_python in omega arith)
      (unfold ◌+ℤ◌ Number.from_python in omega arith)

-- A number of at most 100.
abbrev limited : Spec
limited = record (byte (pos 0) true) { max = some (pos 100) }

write-Nearest_example :
    let raw : ℤ = Number.from_python limited (Number.before_from_python limited (pos 1000)) in
    (pos 0 ≤ℤ raw)
    × (raw <ℤ shifted 8)
    × Allowed limited (Number.to_python limited raw)
    × (distance (pos 1000) (Number.to_python limited raw) ≤ distance (pos 1000) (negsuc 127))
write-Nearest_example =
    write-Nearest limited (omega arith) refl (pos 1000) (negsuc 127) refl
      ((omega arith, omega arith), tt, omega arith)

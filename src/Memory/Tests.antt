-- ===== src/Memory/Tests.antt =====
-- A memory of four words of three bits.
use pypga.Base.{ℕ, ◌≡◌, refl, false, [], ◌∷◌, arith}
use pypga.Base.Circuit.{run}
use pypga.Server.{read_values, write_values}
use pypga.Memory.{Config, State, Input, step, power_on}
use pypga.Memory.Indexed.{Array, array_device, write_at, read_values-write_values}
use pypga.Memory.Protocol.{Write, Shows, stored, all_cycles, writes-Shows}

abbrev small : Config
small = record { width = 3; adr_width = 2; readonly = false }

abbrev start : State
start = power_on (5 ∷ 6 ∷ 7 ∷ 0 ∷ [])

abbrev quiet : Input
quiet = record { storage = 9; re = false; pl_adr = 0; pl_dat_w = 0; pl_we = false }

abbrev write : ℕ → Write
write v = record { value = v; first = quiet; second = quiet; third = quiet; later = quiet ∷ [] }

abbrev blank : Array
blank = record { words = 5 ∷ 6 ∷ 7 ∷ 0 ∷ []; index = 0; latched = 1 }

-- Index 3, then the word 4.
writes-Shows_example :
    Shows
      (run (step small) (all_cycles (write 7 ∷ write 8 ∷ [])) start)
      (stored (write 7 ∷ write 8 ∷ []) blank)
writes-Shows_example =
    writes-Shows small (write 7 ∷ write 8 ∷ []) start blank refl (ground arith) (ground arith)
      ((refl, refl, refl, refl), refl, refl)

read_values-write_values_example :
    let b : Array = write_values (array_device 3) 0 16 (4 ∷ 3 ∷ 2 ∷ []) blank in
    (b.words ≡ write_at (5 ∷ 6 ∷ 7 ∷ 0 ∷ []) 0 (4 ∷ 3 ∷ 2 ∷ []))
    × ((read_values (array_device 3) 16 3 b).0 ≡ 4 ∷ 3 ∷ 2 ∷ [])
read_values-write_values_example =
    read_values-write_values 3 0 16 4 3 (2 ∷ []) blank (omega arith) (ground arith) (omega arith)
      (omega arith)

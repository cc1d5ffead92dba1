-- ===== src/Server/Values.antt =====
-- The values that `read_values` of server.c loads.
use pypga.Base.{ℕ, zero, suc, ◌+◌, ◌*◌, ◌^◌, ◌<◌, ◌≡◌, refl, ap, arith, length, ltb, true}
use pypga.Wire.Codec.{Words}
use pypga.Server.{Device, read_values, read_indexed}

-- A load gives a 32-bit word.
abbrev pub LoadsWords : Device → Type 0
LoadsWords dev = (a : ℕ) (s : Device.State dev) → (Device.load dev a s).0 < 2 ^ 32

several : (n : ℕ) → ltb 1 (suc (suc n)) ≡ true
several n = ground arith

module _ (dev : Device) (words : LoadsWords dev) where
  open dev use {State, load, store}

  read_indexed-Words :
      (addr i n : ℕ) (s : State)
      → Words (read_indexed dev addr i n s).0 × (length (read_indexed dev addr i n s).0 ≡ n)
  unfolding read_indexed
  read_indexed-Words addr i zero s = (tt, refl)
  read_indexed-Words addr i (suc n) s =
      let s' : State = store addr (i * 2 + 1) s in
      let (rest, size) = read_indexed-Words addr (i + 1) n (load addr s').1 in
      ((words addr s', rest), ap suc size)

  -- As many words as asked for.
  pub read_values-Words :
      (addr n : ℕ) (s : State)
      → Words (read_values dev addr n s).0 × (length (read_values dev addr n s).0 ≡ n)
  unfolding read_values
  read_values-Words addr zero s = (tt, refl)
  read_values-Words addr (suc zero) s = ((words addr s, tt), refl)
  read_values-Words addr (suc (suc n)) s =
      rw (several n) (read_indexed-Words addr 0 (suc (suc n)) s)

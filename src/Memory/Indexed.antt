-- ===== src/Memory/Indexed.antt =====
-- A register array as the processor sees it.
use pypga.Base.{
  ℕ, zero, suc, ◌+◌, ◌*◌, ◌/◌, ◌%◌, ◌^◌, ◌≤◌, ◌<◌, ◌≡◌, refl, ap, ap₂, ◌∙◌, true, ◌==◌,
  if◌then◌else◌, List, [], ◌∷◌, get_or, set, arith, All, length, length-set, ltb,
}
use native.Mathlib.Nat.{mod-eq_of_lt, pow-suc, pow-le-pow_right}
use pypga.Memory.Cycles.{odd_index, halved}
use pypga.Server.{Device, read_values, write_values, read_indexed, write_indexed}

-- What the accesses of the processor do, one by one: a word that is odd selects an index, whose
-- word can then be loaded, and another one is stored at the index.
pub record Array : Type 0 where
  pub words : List ℕ
  pub index : ℕ
  pub latched : ℕ

abbrev pub store : ℕ → ℕ → Array → Array
store addr v a =
    if v % 2 == 1
    then record a { index = v / 2; latched = get_or a.words (v / 2) 0 }
    else record a { words = set a.words a.index (v / 2); latched = v }

-- The CSR of an array of words of this width keeps a bit more, that which tells a word from an index.
abbrev pub array_device : ℕ → Device
array_device width = record {
  State = Array;
  load = λ addr a. (a.latched, a);
  store = λ addr v a. store addr (v % 2 ^ suc width) a;
  ram = λ a addr. 0;
}

-- The words with others in the place of those from an index on.
abbrev pub write_at : List ℕ → ℕ → List ℕ → List ℕ
write_at ws i [] = ws
write_at ws i (v ∷ vs) = write_at (set ws i v) (i + 1) vs

-- So many words from an index on.
abbrev pub slice : List ℕ → ℕ → ℕ → List ℕ
slice ws i zero = []
slice ws i (suc n) = get_or ws i 0 ∷ slice ws (i + 1) n

get_or-set_self : (ws : List ℕ) (i v : ℕ) → i < length ws → get_or (set ws i v) i 0 ≡ v
get_or-set_self [] i v h = absurd (omega arith)
get_or-set_self (w ∷ ws) zero v h = refl
get_or-set_self (w ∷ ws) (suc i) v h = get_or-set_self ws i v (omega arith)

get_or-set_other : (ws : List ℕ) (i j v : ℕ) → j < i → get_or (set ws i v) j 0 ≡ get_or ws j 0
get_or-set_other [] i j v h = refl
get_or-set_other (w ∷ ws) zero j v h = absurd (omega arith)
get_or-set_other (w ∷ ws) (suc i) zero v h = refl
get_or-set_other (w ∷ ws) (suc i) (suc j) v h = get_or-set_other ws i j v (omega arith)

get_or-write_at : (vs ws : List ℕ) (i j : ℕ) → j < i → get_or (write_at ws i vs) j 0 ≡ get_or ws j 0
get_or-write_at [] ws i j h = refl
get_or-write_at (v ∷ vs) ws i j h =
    get_or-write_at vs (set ws i v) (i + 1) j (omega arith) ∙ get_or-set_other ws i j v h

slice-write_at :
    (vs ws : List ℕ) (i : ℕ)
    → i + length vs ≤ length ws
    → slice (write_at ws i vs) i (length vs) ≡ vs
slice-write_at [] ws i h = refl
slice-write_at (v ∷ vs) ws i h =
    ap₂ ◌∷◌
      (get_or-write_at vs (set ws i v) (i + 1) i (omega arith)
        ∙ get_or-set_self ws i v (omega arith))
      (slice-write_at vs (set ws i v) (i + 1) (omega (arith, length-set ws i v)))

module _ (width : ℕ) (narrow : width ≤ 31) where
  odd_kept : (i : ℕ) → i < 2 ^ width → (i * 2 + 1) % 2 ^ suc width ≡ i * 2 + 1
  odd_kept i h = mod-eq_of_lt {n = i * 2 + 1} {m = 2 ^ suc width} (omega (arith, pow-suc 2 width))

  even_kept : (v : ℕ) → v < 2 ^ width → v * 2 % 2 ^ 32 % 2 ^ suc width ≡ v * 2
  even_kept v h =
      ap (λ n. n % 2 ^ suc width)
        (mod-eq_of_lt {n = v * 2} {m = 2 ^ 32}
          (omega (arith, pow-le-pow_right {n = 2} (omega arith) narrow)))
      ∙ mod-eq_of_lt {n = v * 2} {m = 2 ^ suc width} (omega (arith, pow-suc 2 width))

  store-index :
      (addr i : ℕ) (a : Array)
      → i < 2 ^ width
      → store addr ((i * 2 + 1) % 2 ^ suc width) a
        ≡ record a { index = i; latched = get_or a.words i 0 }
  store-index addr i a h = rw (odd_kept i h) (ground (arith, odd_index i, halved i))

  store-value :
      (addr v : ℕ) (a : Array)
      → v < 2 ^ width
      → store addr (v * 2 % 2 ^ 32 % 2 ^ suc width) a
        ≡ record a { words = set a.words a.index v; latched = v * 2 }
  store-value addr v a h = rw (even_kept v h) (ground (arith, even, half))
    where
      even : v * 2 % 2 ≡ 0
      even = omega arith

      half : v * 2 / 2 ≡ v
      half = omega arith

  read_indexed-slice :
      (addr i n : ℕ) (a : Array)
      → i + n ≤ 2 ^ width
      → (read_indexed (array_device width) addr i n a).0 ≡ slice a.words i n
  unfolding read_indexed
  read_indexed-slice addr i zero a h = refl
  read_indexed-slice addr i (suc n) a h = rw (store-index addr i a (omega arith)) (
      ap (λ l. get_or a.words i 0 ∷ l)
        (read_indexed-slice addr (i + 1) n (record a { index = i; latched = get_or a.words i 0 })
          (omega arith)))

  write_indexed-write_at :
      (addr i : ℕ) (vs : List ℕ) (a : Array)
      → All (λ v. v < 2 ^ width) vs
      → i + length vs ≤ 2 ^ width
      → (write_indexed (array_device width) addr i vs a).words ≡ write_at a.words i vs
  unfolding write_indexed
  write_indexed-write_at addr i [] a h room = refl
  write_indexed-write_at addr i (v ∷ vs) a h room =
      ap (λ b. (write_indexed (array_device width) addr (i + 1) vs b).words) (stored)
      ∙ write_indexed-write_at addr (i + 1) vs
          (record a { index = i; words = set a.words i v; latched = v * 2 }) h.1 (omega arith)
    where
      stored :
          store addr (v * 2 % 2 ^ 32 % 2 ^ suc width) (store addr ((i * 2 + 1) % 2 ^ suc width) a)
          ≡ record a { index = i; words = set a.words i v; latched = v * 2 }
      stored =
          ap (store addr (v * 2 % 2 ^ 32 % 2 ^ suc width)) (store-index addr i a (omega arith))
          ∙ store-value addr v (record a { index = i; latched = get_or a.words i 0 }) h.0

several : (n : ℕ) → ltb 1 (suc (suc n)) ≡ true
several n = ground arith

-- More than one word that the server writes to a register array is read back by the server, and is
-- what the array holds from its start. The words have the width of the array, of 31 bits at most;
-- the array has room for them, and no more words than its width has indices.
pub read_values-write_values :
    (width stale addr v w : ℕ) (vs : List ℕ) (a : Array)
    → width ≤ 31
    → All (λ n. n < 2 ^ width) (v ∷ w ∷ vs)
    → suc (suc (length vs)) ≤ length a.words
    → length a.words ≤ 2 ^ width
    → let b : Array = write_values (array_device width) stale addr (v ∷ w ∷ vs) a in
      (b.words ≡ write_at a.words 0 (v ∷ w ∷ vs))
      × ((read_values (array_device width) addr (suc (suc (length vs))) b).0 ≡ v ∷ w ∷ vs)
unfolding read_values write_values
read_values-write_values width stale addr v w vs a narrow fits room indices =
    let b : Array = write_indexed (array_device width) addr 0 (v ∷ w ∷ vs) a in
    let held : b.words ≡ write_at a.words 0 (v ∷ w ∷ vs) =
      write_indexed-write_at width narrow addr 0 (v ∷ w ∷ vs) a fits (omega (arith, room)) in
    (
      held,
      rw (several (length vs)) (
          read_indexed-slice width narrow addr 0 (suc (suc (length vs))) b (omega (arith, room))
          ∙ ap (λ ws. slice ws 0 (suc (suc (length vs)))) held
          ∙ slice-write_at (v ∷ w ∷ vs) a.words 0 (omega (arith, room))),
    )

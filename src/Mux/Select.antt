-- ===== src/Mux/Select.antt =====
-- The option that is selected is the one that comes out.
use pypga.Base.{
  ℕ, zero, suc, ◌^◌, ◌<◌, ◌≡◌, refl, ap, sym, ◌∙◌, Bool-cases, inl, inr, List, [], ◌∷◌, Option,
  none, some, length, get_elem?, arith,
}
use native.Mathlib.Nat.{mod-eq_of_lt}
use pypga.Base.Circuit.{wrap}
use pypga.Base.Options.{map_option}
use pypga.Common.Bits.{bit_length_bounds}
use pypga.Instance.{Name}
use pypga.Csr.{same_name}
use pypga.Csr.Lookup.{same_name_eq}
use pypga.Mux.{index_of, select_width, set_select, get_select, out, case_of}

map_suc : (x : Option ℕ) (i : ℕ) → map_option suc x ≡ some i → (j : ℕ) × (x ≡ some j) × (suc j ≡ i)
map_suc none i h = absurd (ground arith)
map_suc (some j) i h = (j, refl, ground arith)

index_of-get :
    (option : Name) (os : List Name) (i : ℕ)
    → index_of option os ≡ some i
    → (i < length os) × (get_elem? os i ≡ some option)
unfolding index_of
index_of-get option [] i h = absurd (ground arith)
index_of-get option (o ∷ os) i h = elim (Bool-cases (same_name o option)) [
  | inl same ↦
      let e : 0 ≡ i = ground (arith, same, h) in
      rw (sym e) (omega arith, ap some (same_name_eq o option same))
  | inr other ↦
      let (j, found, e) = map_suc (index_of option os) i (rw other at h) in
      let (below, there) = index_of-get option os j found in rw (sym e) (omega arith, there)
]

case_of-get :
    (default_ : ℕ) (vs : List ℕ) (i v : ℕ) → get_elem? vs i ≡ some v → case_of default_ vs i ≡ v
unfolding case_of
case_of-get default_ [] i v h = absurd (ground arith)
case_of-get default_ (o ∷ os) zero v h = ground arith
case_of-get default_ (o ∷ os) (suc i) v h = case_of-get default_ os i v h

-- The register is wide enough for every index.
wrap_index : (os : List Name) (i : ℕ) → i < length os → wrap (select_width os) i ≡ i
unfolding select_width
wrap_index os i h = mod-eq_of_lt (omega (arith, h, (bit_length_bounds (length os)).0))

-- A name that is among the options can be selected: the register holds its index, the getter gives
-- the name back, and the multiplexer puts out the value of that input if it has the width.
pub select_round_trip :
    (options : List Name) (option : Name) (i : ℕ) (width default_ v : ℕ) (values : List ℕ)
    → index_of option options ≡ some i
    → get_elem? values i ≡ some v
    → v < 2 ^ width
    → (set_select options option ≡ some i)
      × (get_select options i ≡ some option)
      × (out width default_ values i ≡ v)
unfolding set_select get_select out
select_round_trip options option i width default_ v values found value fits =
    let (below, there) = index_of-get option options i found in
    (
      rw (found) (ap some (wrap_index options i below)),
      there,
      ap (wrap width) (case_of-get default_ values i v value) ∙ mod-eq_of_lt fits,
    )

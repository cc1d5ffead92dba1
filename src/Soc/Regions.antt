-- ===== src/Soc/Regions.antt =====
-- The regions of a finalized system do not overlap in name or origin.
use pypga.Base.{
  ℕ, ◌≡◌, ◌≢◌, ap, sym, ◌∙◌, true, false, Bool-cases, inl, inr, ◌||◌, ◌==◌, List, [], ◌∷◌, ◌++◌,
  map, Option, none, some, All, arith,
}
use mathlib.Core.List.{append_assoc, append-nil}
use pypga.Csr.{same_name}
use pypga.Csr.Lookup.{same_name_refl}
use pypga.Soc.{Region, Bank, conflict, add_csr_region, bank_region, add_banks}

-- Two regions with nothing in common.
abbrev pub Apart : Region → Region → Type 0
Apart r q = (q.region_name ≢ r.region_name) × (q.origin ≢ r.origin)

abbrev pub Distinct : List Region → Type 0
Distinct [] = Unit
Distinct (r ∷ rs) = All (Apart r) rs × Distinct rs

Apart-same_name :
    (r q : Region)
    → same_name q.region_name r.region_name || q.origin == r.origin ≡ false
    → Apart q r
Apart-same_name r q h = ((λ e. absurd (ground (arith, same e))), (λ e. absurd (ground arith)))
  where
    same : r.region_name ≡ q.region_name → same_name q.region_name r.region_name ≡ true
    same e = rw (e) (same_name_refl q.region_name)

conflict-Apart :
    (r : Region) (rs : List Region)
    → conflict r.region_name r.origin rs ≡ false
    → All (λ q. Apart q r) rs
unfolding conflict
conflict-Apart r [] h = tt
conflict-Apart r (q ∷ rs) h =
    (Apart-same_name r q (ground arith), conflict-Apart r rs (ground arith))

All-snoc :
    (P : Region → Type 0) (rs : List Region) (r : Region) → All P rs → P r → All P (rs ++ (r ∷ []))
All-snoc P [] r h p = (p, tt)
All-snoc P (q ∷ rs) r h p = (h.0, All-snoc P rs r h.1 p)

Distinct-snoc :
    (rs : List Region) (r : Region)
    → Distinct rs
    → All (λ q. Apart q r) rs
    → Distinct (rs ++ (r ∷ []))
Distinct-snoc [] r d h = (tt, tt)
Distinct-snoc (q ∷ rs) r d h = (All-snoc (Apart q) rs r d.0 h.0, Distinct-snoc rs r d.1 h.1)

from_some : List Region → Option (List Region) → List Region
from_some rs none = rs
from_some rs (some qs) = qs

some_eq : (rs qs : List Region) → some rs ≡ some qs → rs ≡ qs
unfolding from_some
some_eq rs qs e = ap (from_some rs) e

-- If the banks can be added to regions that are distinct, then all regions are distinct, in name
-- and in origin, and they are the regions from before and those of the banks, in order.
pub add_banks-Distinct :
    (width : ℕ) (banks : List Bank) (regions added : List Region)
    → Distinct regions
    → add_banks width banks regions ≡ some added
    → Distinct added × (added ≡ regions ++ map (bank_region width) banks)
unfolding add_banks add_csr_region
add_banks-Distinct width [] regions added d h =
    let e : regions ≡ added = some_eq regions added h in
    (rw (sym e) d, sym e ∙ sym (append-nil regions))
add_banks-Distinct width (b ∷ bs) regions added d h =
    elim (Bool-cases (conflict b.bank_name (bank_region width b).origin regions)) [
      | inl clash ↦ absurd (ground (arith, rw clash at h))
      | inr free ↦
          let (apart, same) =
            add_banks-Distinct width bs (regions ++ (bank_region width b ∷ [])) added
              (Distinct-snoc regions (bank_region width b) d
                (conflict-Apart (bank_region width b) regions free))
              (rw free at h) in
          (
            apart,
            same ∙ append_assoc regions (bank_region width b ∷ []) (map (bank_region width) bs),
          )
    ]

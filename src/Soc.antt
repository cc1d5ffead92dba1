-- ===== src/Soc.antt =====
-- pypga/core/migen_axi/integration/soc_core.py: the CSR regions of `SoCCore`, which become the
-- lines of csr.csv. The banks and memories that are passed in come from MiSoC's `CSRBankArray`.
pub mod Regions
mod Tests
use pypga.Base.{
  ℕ, ◌+◌, ◌*◌, Bool, true, false, ◌||◌, ◌==◌, if◌then◌else◌, List, [], ◌∷◌, ◌++◌, Option, none,
  some,
}
use pypga.Base.Options.{◌>>=◌}
use pypga.Instance.{Name}
use pypga.Csr.{same_name}

pub record Region : Type 0 where
  pub region_name : Name
  pub origin : ℕ
  pub busword : ℕ

-- A bank of registers or a memory: its name and the index of its page.
pub record Bank : Type 0 where
  pub bank_name : Name
  pub mapaddr : ℕ

-- `check_csr_region`: whether a region is in the way.
conflict : Name → ℕ → List Region → Bool
unfolding same_name
conflict n o [] = false
conflict n o (r ∷ rs) = (same_name r.region_name n || r.origin == o) || conflict n o rs

-- `none` is the `ValueError` of a conflict.
pub add_csr_region : Region → List Region → Option (List Region)
unfolding conflict
add_csr_region r regions =
    if conflict r.region_name r.origin regions then none else some (regions ++ (r ∷ []))

-- `mem_map["csr"] + 0x800 * mapaddr`
abbrev pub bank_region : ℕ → Bank → Region
bank_region csr_data_width b = record {
  region_name = b.bank_name;
  origin = 2147483648 + 2048 * b.mapaddr;
  busword = csr_data_width;
}

-- The loops of `do_finalize` over banks and memories.
unfoldable pub add_banks : ℕ → List Bank → List Region → Option (List Region)
unfolding add_csr_region
add_banks width [] regions = some regions
add_banks width (b ∷ bs) regions =
    add_csr_region (bank_region width b) regions >>= add_banks width bs

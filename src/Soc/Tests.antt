-- ===== src/Soc/Tests.antt =====
-- Two banks of a system with eight-bit words.
use pypga.Base.{◌≡◌, refl, List, [], ◌∷◌, ◌++◌, map, some}
use pypga.Soc.{Bank, bank_region, add_banks}
use pypga.Soc.Regions.{Distinct, add_banks-Distinct}

abbrev banks : List Bank
banks =
    record { bank_name = b'a' ∷ []; mapaddr = 0 }
    ∷ record { bank_name = b'b' ∷ []; mapaddr = 3 }
    ∷ []

added : add_banks 8 banks [] ≡ some (map (bank_region 8) banks)
unfolding add_banks
added = refl

add_banks-Distinct_example :
    Distinct (map (bank_region 8) banks)
    × (map (bank_region 8) banks ≡ [] ++ map (bank_region 8) banks)
add_banks-Distinct_example = add_banks-Distinct 8 banks [] (map (bank_region 8) banks) tt added

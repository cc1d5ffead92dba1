-- ===== src/Awg/Tests.antt =====
-- An Awg of three values, each for three cycles.
use pypga.Base.{◌≡◌, refl, true, false, [], ◌∷◌, ◌++◌, map, replicate, some, arith}
use pypga.Base.Circuit.{trace}
use pypga.Awg.{Config, step, power_on, out, any_trigger}
use pypga.Awg.Playing.{Triggers, cycle, held, values_in_order}

abbrev small : Config
small = record {
  data_depth = 3;
  values = record { width = 4; adr_width = 2; readonly = false };
  burst = record { width = 2; count_width = 2 };
}

abbrev quiet : Triggers
quiet = (false, false, false)

values_in_order_example :
    trace out
      (step small)
      (map (cycle 1) ((false, true, false) ∷ (replicate 8 quiet ++ (quiet ∷ []))))
      (power_on small (some (7 ∷ 8 ∷ 9 ∷ [])) 1)
    ≡ 9 ∷ held 3 (7 ∷ 8 ∷ 9 ∷ [])
unfolding any_trigger
values_in_order_example =
    values_in_order small 1 (7 ∷ 8 ∷ 9 ∷ []) (false, true, false) quiet (replicate 8 quiet)
      (ground arith) refl refl

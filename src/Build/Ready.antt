-- ===== src/Build/Ready.antt =====
-- What an instance of a design can rely on.
use pypga.Base.{ℕ, suc, ◌≡◌, ◌⊎◌, Bool, true, false, List, arith}
use pypga.Build.{Arguments, Results, run_design, runs}

-- If `run` gives an instance, the results of its design are there: from before, and then Vivado has
-- not run, or else from the one build of the call, which met its timing. A forced build is never
-- left out.
pub run_design-runs :
    (registry : List ℕ) (meets_timing : Bool) (a : Arguments) (r : Results)
    → runs (run_design registry meets_timing a r).0 ≡ true
    → let s : Results = (run_design registry meets_timing a r).1 in
      (s.result_exists ≡ true)
      × (((s.builds ≡ r.builds) × (a.forcebuild ≡ false) × (r.result_exists ≡ true))
          ⊎ ((s.builds ≡ suc r.builds) × (meets_timing ≡ true)))
unfolding run_design
run_design-runs registry meets_timing a r h = ground arith

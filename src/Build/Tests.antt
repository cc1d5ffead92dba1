-- ===== src/Build/Tests.antt =====
-- A first run on the one board that has a builder.
use pypga.Base.{◌≡◌, refl, true, false, [], ◌∷◌}
use pypga.Build.{Arguments, Results, run_design, runs}

abbrev fresh : Results
fresh = record { result_exists = false; builds = 0 }

abbrev arguments : Arguments
arguments = record { board = 1; host_given = true; autobuild = true; forcebuild = false }

started : runs (run_design (1 ∷ []) true arguments fresh).0 ≡ true
unfolding run_design
started = refl

-- ===== src/Build.antt =====
-- `TopModule.run` of pypga/core/module.py over the builders of pypga/core/builder.py and
-- pypga/boards/stemlab125_14/builder.py: when a design is built, and what runs it. Vivado is a
-- parameter, by whether the design meets its timing.
pub mod Ready
mod Tests
use pypga.Base.{ℕ, suc, Bool, true, false, ◌||◌, not, ◌==◌, if◌then◌else◌, List, [], ◌∷◌}

-- The results of a design's hash: whether they are there, and how often Vivado has run for them.
pub record Results : Type 0 where
  pub result_exists : Bool
  pub builds : ℕ

-- An instance over the remote interface; the `TypeError` of the local one, which takes no
-- arguments; the `KeyError` of a board without a builder, the `ValueError` of a missing build, the
-- `RuntimeError` of missed timing.
pub data Outcome : Type 0 where
  remote_instance no_local_interface unknown_board not_built timing_missed : Outcome

-- The arguments of `run` that decide.
pub record Arguments : Type 0 where
  pub board : ℕ
  pub host_given : Bool
  pub autobuild : Bool
  pub forcebuild : Bool

-- Whether `builder_registry` has the board.
registered : ℕ → List ℕ → Bool
registered board [] = false
registered board (b ∷ bs) = board == b || registered board bs

interface : Arguments → Outcome
interface a = if a.host_given then remote_instance else no_local_interface

-- `build`, and then the interface: the check of the timing comes before the results are copied.
build : Bool → Arguments → Results → Outcome × Results
unfolding interface
build meets_timing a r =
    if meets_timing
    then (interface a, record { result_exists = true; builds = suc r.builds })
    else (timing_missed, record r { builds = suc r.builds })

unfoldable pub run_design : List ℕ → Bool → Arguments → Results → Outcome × Results
unfolding registered interface build
run_design registry meets_timing a r =
    if registered a.board registry
    then if a.forcebuild || not r.result_exists
      then if a.autobuild || a.forcebuild then build meets_timing a r else (not_built, r)
      else (interface a, r)
    else (unknown_board, r)

-- Whether the outcome is an instance.
abbrev pub runs : Outcome → Bool
runs remote_instance = true
runs o = false

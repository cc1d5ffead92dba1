-- ===== src/Builder/Tests.antt =====
-- A first build on an empty disk, with a tool that writes a log and a bitstream.
use pypga.Base.{◌≡◌, refl, true, false, inl, inr, List, [], ◌∷◌, none, some, ℕ, arith, ◌∙◌}
use pypga.Csr.{lookup}
use pypga.Timing.{message, timing_met}
use pypga.Files.{
  is_dir, Location, directory, Files, done, Attempt, ◌>>◌, beneath, same_path, continue, put,
  empty_path, write_file, exists, mkdir,
}
use pypga.Files.Paths.{outside, Apart}
use pypga.Files.Effects.{finished, write_file-off, Keeps}
use pypga.Builder.Success.{Succeeds, build-finished}
use pypga.Files.Emptied.{Free, Rooted, continue-cases}
use pypga.Builder.{
  Settings, Registry, Design, Arguments, build, stemlab_builder, build_stemlab, stemlab125_14,
  get_build_path, get_result_path, run, vivado_log, bitstream_bin,
}
use pypga.Builder.Steps.{Within, log_met}
use pypga.Builder.Results.{Built, build-Built, build-missed}
use pypga.Builder.Runs.{Left, run-again}

abbrev disk : Files
disk [] = some directory
disk (n ∷ p) = none

-- The tool: a log with a text, and a bitstream.
abbrev tool : List ℕ → Location → Attempt Unit
tool text b = write_file b vivado_log text >> write_file b bitstream_bin (1 ∷ 2 ∷ [])

tool-Within : (text : List ℕ) (b : Location) → Within b (tool text b)
tool-Within text b fs q h =
    continue-cases (λ r. r.1 q ≡ fs q) (λ x. write_file b bitstream_bin (1 ∷ 2 ∷ []))
      (write_file b vivado_log text fs)
      (λ e k. write_file-off b vivado_log text fs q (outside b q vivado_log h))
      (λ x k.
        write_file-off b bitstream_bin (1 ∷ 2 ∷ []) (write_file b vivado_log text fs).1 q
          (outside b q bitstream_bin h)
        ∙ write_file-off b vivado_log text fs q (outside b q vivado_log h))

abbrev out : Location
out = (b'o' ∷ []) ∷ []

abbrev work : Location
work = (b'b' ∷ []) ∷ []

apart : Apart work out
unfolding beneath
apart = (refl, refl)

some_is_some : some directory ≡ none → ⊥
some_is_some e = absurd (ground arith)

nothing : (p : Location) → Rooted p disk
unfolding beneath
nothing [] e q h = absurd (some_is_some e)
nothing (n ∷ p) e [] h = absurd (ground arith)
nothing (n ∷ p) e (m ∷ q) h = refl

is_through : finished (build (stemlab_builder (tool message) (7 ∷ [])) work out disk).0 ≡ true
unfolding build build_stemlab continue
is_through = refl

build-Built_example :
    Built (7 ∷ []) work out (build (stemlab_builder (tool message) (7 ∷ [])) work out disk).1
build-Built_example =
    build-Built (tool message) (7 ∷ []) work (b'o' ∷ []) [] disk apart (tool-Within message work)
      (nothing out) is_through

-- A log without the line.
missed : log_met work (tool (b'x' ∷ []) work (empty_path work disk).1).1 ≡ false
unfolding continue write_file empty_path mkdir put timing_met same_path exists
missed = refl

build-missed_example :
    (finished (build (stemlab_builder (tool (b'x' ∷ [])) (7 ∷ [])) work out disk).0 ≡ false)
    × Keeps out disk (build (stemlab_builder (tool (b'x' ∷ [])) (7 ∷ [])) work out disk).1
build-missed_example =
    build-missed (tool (b'x' ∷ [])) (7 ∷ []) work out disk apart (tool-Within (b'x' ∷ []) work)
      missed

abbrev settings : Settings
settings = record { result_path = out; build_path = work }

abbrev design : Design
design = record { module_name = b'M' ∷ []; hash = b'9' ∷ [] }

abbrev arguments : Arguments
arguments = record {
  board = stemlab125_14;
  host_given = true;
  autobuild = true;
  forcebuild = false;
}

abbrev registry : Registry
registry = (stemlab125_14, stemlab_builder (tool message) (7 ∷ [])) ∷ []

board_found : lookup stemlab125_14 registry ≡ some (stemlab_builder (tool message) (7 ∷ []))
unfolding lookup
board_found = refl

run_through : finished (run registry settings design arguments disk).0 ≡ true
unfolding run build build_stemlab continue
run_through = refl

run-again_example :
    let gs : Files = (run registry settings design arguments disk).1 in
    Left (tool message) (7 ∷ []) settings design arguments disk gs
    × (run registry settings design (record arguments { forcebuild = false }) gs
        ≡ (done (get_result_path settings stemlab125_14 design), gs))
run-again_example =
    run-again (tool message) (7 ∷ []) settings design arguments registry disk board_found apart
      (tool-Within message (get_build_path settings stemlab125_14 design))
      (nothing (get_result_path settings stemlab125_14 design)) run_through

nothing_in_the_way : (p : Location) → Free p disk
nothing_in_the_way p [] h = inr refl
nothing_in_the_way p (n ∷ q) h = inl refl

tool-Succeeds : Succeeds (tool message) (7 ∷ []) work (empty_path work disk).1
unfolding continue write_file empty_path mkdir put timing_met same_path exists is_dir
tool-Succeeds = (refl, refl, (refl, refl), refl)

build-finished_example :
    finished (build (stemlab_builder (tool message) (7 ∷ [])) work out disk).0 ≡ true
build-finished_example =
    build-finished (tool message) (7 ∷ []) work (b'o' ∷ []) [] disk apart (tool-Within message work)
      (nothing out) (nothing_in_the_way work) (nothing_in_the_way out) tool-Succeeds

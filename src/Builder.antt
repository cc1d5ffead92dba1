-- ===== src/Builder.antt =====
-- pypga/core/builder.py and pypga/boards/stemlab125_14/builder.py: the registry of builders, the
-- folders of a design, and a build over the files. The build of the system on chip, which runs
-- Vivado, and the text of the register addresses are parameters.
pub mod Copied
pub mod Steps
pub mod Results
pub mod Success
pub mod Runs
mod Tests
use pypga.Base.{
  ℕ, Bool, true, false, not, ◌&&◌, ◌||◌, if◌then◌else◌, List, [], ◌∷◌, ◌++◌, Option, none, some,
}
use pypga.Csr.{assign, lookup}
use pypga.Instance.{Name}
use pypga.Files.{
  Location, Files, Attempt, ◌>>=◌, ◌>>◌, continue, pure, raise, Error, key_error, value_error,
  runtime_error, type_error, Outcome, done, raised, is_dir, empty_path, read_file, write_file, copy,
}
use pypga.Timing.{timing_met}

-- `settings`: the folders of results and of builds.
pub record Settings : Type 0 where
  pub result_path : Location
  pub build_path : Location

-- A subclass of `BaseBuilder`: its board, the names of its results, and the steps of its `_build`,
-- which are given the build path and the result path.
pub record BuilderClass : Type 0 where
  pub class_board : Option Name
  pub build_results : List Name
  pub build_steps : Location → Location → Attempt Unit

-- `builder_registry`
abbrev pub Registry : Type 0
Registry = List (Name × BuilderClass)

-- `__init_subclass__`; `none` is the `ValueError` of a class without a board.
unfoldable pub init_builder_subclass : BuilderClass → Registry → Option Registry
unfolding assign
init_builder_subclass c registry = elim c.class_board [
  | none ↦ none
  | some board ↦ some (assign board c registry)
]

-- A design: the name of its class, and the hash that the builder computes of it.
pub record Design : Type 0 where
  pub module_name : Name
  pub hash : Name

-- `_get_build_path` and `_get_result_path`
abbrev pub get_build_path : Settings → Name → Design → Location
get_build_path s board d = s.build_path ++ (board ∷ d.module_name ∷ [])

abbrev pub get_result_path : Settings → Name → Design → Location
get_result_path s board d = s.result_path ++ (board ∷ d.module_name ∷ d.hash ∷ [])

-- The loop of `copy_results`.
unfoldable pub copy_all : Location → Location → List Name → Attempt Unit
unfolding copy
copy_all build_path result_path [] = pure tt
copy_all build_path result_path (result ∷ results) =
    copy build_path result_path result >> copy_all build_path result_path results

unfoldable pub copy_results : List Name → Location → Location → Attempt Unit
unfolding copy_all empty_path
copy_results results build_path result_path =
    empty_path result_path >> copy_all build_path result_path results

-- `build`
unfoldable pub build : BuilderClass → Location → Location → Attempt Unit
unfolding empty_path
build c build_path result_path = empty_path build_path >> c.build_steps build_path result_path

abbrev pub vivado_log : Name
vivado_log = b'v' ∷ b'i' ∷ b'v' ∷ b'a' ∷ b'd' ∷ b'o' ∷ b'.' ∷ b'l' ∷ b'o' ∷ b'g' ∷ []

abbrev pub bitstream_bin : Name
bitstream_bin =
    b'b' ∷ b'i' ∷ b't' ∷ b's' ∷ b't' ∷ b'r' ∷ b'e' ∷ b'a' ∷ b'm' ∷ b'.' ∷ b'b' ∷ b'i' ∷ b'n' ∷ []

abbrev pub csr_csv : Name
csr_csv = b'c' ∷ b's' ∷ b'r' ∷ b'.' ∷ b'c' ∷ b's' ∷ b'v' ∷ []

abbrev pub stemlab125_14 : Name
stemlab125_14 =
    b's' ∷ b't' ∷ b'e' ∷ b'm' ∷ b'l' ∷ b'a' ∷ b'b' ∷ b'1' ∷ b'2' ∷ b'5' ∷ b'_' ∷ b'1' ∷ b'4' ∷ []

-- `_check_timing_constraints_are_met`
unfoldable pub check_timing : Location → Attempt Unit
unfolding read_file timing_met
check_timing build_path = read_file (build_path ++ (vivado_log ∷ [])) >>= λ log.
    if timing_met log then pure tt else raise runtime_error

-- The builder of the board: what Vivado does in the build path, and the addresses of the registers.
module _ (soc_build : Location → Attempt Unit) (csr_text : List ℕ) where
  -- `_build`
  unfoldable pub build_stemlab : Location → Location → Attempt Unit
  unfolding check_timing copy_results write_file
  build_stemlab build_path result_path =
      soc_build build_path
      >> check_timing build_path
      >> write_file build_path csr_csv csr_text
      >> copy_results (bitstream_bin ∷ csr_csv ∷ []) build_path result_path

  abbrev pub stemlab_builder : BuilderClass
  stemlab_builder = record {
    class_board = some stemlab125_14;
    build_results = bitstream_bin ∷ csr_csv ∷ [];
    build_steps = build_stemlab;
  }

-- The arguments of `TopModule.run` that decide.
pub record Arguments : Type 0 where
  pub board : Name
  pub host_given : Bool
  pub autobuild : Bool
  pub forcebuild : Bool

-- The class of a remote interface is called with the result path; the local one takes no arguments.
abbrev pub interface : Arguments → Location → Attempt Location
interface a result_path = if a.host_given then pure result_path else raise type_error

-- `run` with the builder of its board.
unfoldable pub run_builder : BuilderClass → Settings → Design → Arguments → Attempt Location
unfolding is_dir build
run_builder c settings d a fs =
    let build_path : Location = get_build_path settings a.board d in
    let result_path : Location = get_result_path settings a.board d in
    (if a.forcebuild || not (is_dir result_path fs)
        then (if a.autobuild || a.forcebuild
            then build c build_path result_path >> interface a result_path
            else raise value_error)
        else interface a result_path)
      fs

-- `run`, up to the result path that it gives to the interface.
unfoldable pub run : Registry → Settings → Design → Arguments → Attempt Location
unfolding lookup run_builder
run registry settings d a = elim (lookup a.board registry) [
  | none ↦ raise key_error
  | some c ↦ run_builder c settings d a
]

-- ===== src/Files.antt =====
-- The files that the builders work on, as `pathlib`, `shutil` and `open` show them: `empty_path` of
-- pypga/core/common.py and what it is made of. A path is the names from the root on; the root is a
-- directory. Links and permissions are left out.
pub mod Paths
pub mod Effects
pub mod Emptied
mod Tests
use pypga.Base.{
  ℕ, Bool, true, false, ◌&&◌, not, if◌then◌else◌, List, [], ◌∷◌, ◌++◌, Option, none, some,
}
use pypga.Csr.{same_name}
use pypga.Instance.{Name}

abbrev pub Location : Type 0
Location = List Name

-- A file has its bytes.
pub data Node : Type 0 where
  directory : Node
  file : List ℕ → Node

abbrev pub Files : Type 0
Files = Location → Option Node

-- The exceptions of the file system and of the builders; one of Migen's or Vivado's is a number.
-- Reading and writing do not tell a file in the place of a folder from a folder that is missing.
pub data Error : Type 0 where
  not_a_directory is_a_directory file_exists file_not_found : Error
  key_error value_error runtime_error type_error : Error
  tool_error : ℕ → Error

pub data Outcome (A : Type 0) : Type 0 where
  done : A → Outcome A
  raised : Error → Outcome A

-- What is done to the files before an exception stays done.
abbrev pub Attempt : Type 0 → Type 0
Attempt A = Files → Outcome A × Files

module _ {A B : Type 0} where
  unfoldable pub continue : (A → Attempt B) → Outcome A × Files → Outcome B × Files
  continue f (done a, fs) = f a fs
  continue f (raised e, fs) = (raised e, fs)

infixl 5 ◌>>=◌ ◌>>◌
abbrev pub ◌>>=◌ : {A B : Type 0} → Attempt A → (A → Attempt B) → Attempt B
◌>>=◌ m f fs = continue f (m fs)

abbrev pub ◌>>◌ : {A B : Type 0} → Attempt A → Attempt B → Attempt B
m >> n = m >>= λ x. n

-- `p == q or p in q.parents`
unfoldable pub beneath : Location → Location → Bool
unfolding same_name
beneath [] q = true
beneath (n ∷ p) [] = false
beneath (n ∷ p) (m ∷ q) = same_name n m && beneath p q

unfoldable pub same_path : Location → Location → Bool
unfolding beneath
same_path p q = beneath p q && beneath q p

-- The files with another node at one path, and without those beneath a path.
unfoldable pub put : Location → Node → Files → Files
unfolding same_path
put p n fs q = if same_path p q then some n else fs q

unfoldable pub cut : Location → Files → Files
unfolding beneath
cut p fs q = if beneath p q then none else fs q

abbrev pub pure : {A : Type 0} → A → Attempt A
pure a fs = (done a, fs)

abbrev pub raise : {A : Type 0} → Error → Attempt A
raise e fs = (raised e, fs)

unfoldable pub exists : Location → Files → Bool
exists p fs = elim (fs p) [ none ↦ false | some n ↦ true ]

unfoldable pub is_dir : Location → Files → Bool
is_dir p fs = elim (fs p) [ none ↦ false | some n ↦ elim n [ directory ↦ true | file b ↦ false ] ]

-- `shutil.rmtree`
unfoldable pub rmtree : Location → Attempt Unit
unfolding cut
rmtree p fs = elim (fs p) [
  | none ↦ (raised file_not_found, fs)
  | some n ↦ elim n [ directory ↦ (done tt, cut p fs) | file b ↦ (raised not_a_directory, fs) ]
]

-- `path.mkdir(parents=True, exist_ok=True)`, for what is left of the path behind a directory.
unfoldable pub mkdir : Location → List Name → Attempt Unit
unfolding put
mkdir p [] fs = (done tt, fs)
mkdir p (n ∷ ns) fs =
    let fresh = mkdir (p ++ (n ∷ [])) ns (put (p ++ (n ∷ [])) directory fs) in
    let rest = mkdir (p ++ (n ∷ [])) ns fs in
    elim (fs (p ++ (n ∷ []))) [
      | none ↦ fresh
      | some m ↦ elim m [
        | directory ↦ rest
        | file b ↦ (elim ns [ [] ↦ raised file_exists | k ∷ ks ↦ raised not_a_directory ], fs)
      ]
    ]

-- `empty_path`
unfoldable pub empty_path : Location → Attempt Unit
unfolding exists rmtree mkdir
empty_path p fs = (if exists p fs then rmtree p >> mkdir [] p else mkdir [] p) fs

-- `open(path).read()`
unfoldable pub read_file : Location → Attempt (List ℕ)
read_file p fs = elim (fs p) [
  | none ↦ (raised file_not_found, fs)
  | some n ↦ elim n [ directory ↦ (raised is_a_directory, fs) | file b ↦ (done b, fs) ]
]

-- `open(folder / name, "w").write(bytes)`
unfoldable pub write_file : Location → Name → List ℕ → Attempt Unit
unfolding is_dir put
write_file folder name bytes fs =
    if is_dir folder fs
    then if is_dir (folder ++ (name ∷ [])) fs
      then (raised is_a_directory, fs)
      else (done tt, put (folder ++ (name ∷ [])) (file bytes) fs)
    else (raised file_not_found, fs)

-- Where `shutil.copy` writes: a directory of the file's name takes it.
unfoldable pub target : Location → Name → Files → Location
unfolding is_dir
target folder name fs = if is_dir (folder ++ (name ∷ [])) fs then folder ++ (name ∷ []) else folder

-- `shutil.copy` of a file of one folder to another.
unfoldable pub copy : Location → Location → Name → Attempt Unit
unfolding read_file write_file target
copy source folder name = read_file (source ++ (name ∷ [])) >>= λ bytes.
    λ fs. write_file (target folder name fs) name bytes fs

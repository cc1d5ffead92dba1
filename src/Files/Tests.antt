-- ===== src/Files/Tests.antt =====
-- Small folders.
use pypga.Base.{◌≡◌, refl, [], ◌∷◌, none, some}
use pypga.Files.{Location, directory, file, Files, raised, empty_path, not_a_directory, continue}

-- Two folders, the inner one with a file.
abbrev disk : Files
disk [] = some directory
disk (n ∷ []) = some directory
disk (n ∷ m ∷ []) = some (file (5 ∷ []))
disk (n ∷ m ∷ k ∷ p) = none

abbrev a : Location
a = (1 ∷ []) ∷ []

file_gone : (empty_path a disk).1 ((1 ∷ []) ∷ (2 ∷ []) ∷ []) ≡ none
unfolding empty_path continue
file_gone = refl

file_in_the_way : (empty_path ((1 ∷ []) ∷ (2 ∷ []) ∷ (3 ∷ []) ∷ []) disk).0 ≡ raised not_a_directory
unfolding empty_path
file_in_the_way = refl

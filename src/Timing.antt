-- ===== src/Timing.antt =====
-- pypga/boards/stemlab125_14/builder.py: how `_check_timing_constraints_are_met` reads the log of
-- Vivado. A text is its characters, and the log is ASCII.
mod Tests
use pypga.Base.{
  ℕ, Bool, true, false, not, ◌&&◌, ◌||◌, ◌==◌, leb, if◌then◌else◌, List, [], ◌∷◌, ◌++◌,
}
use pypga.Csr.{same_name}
use pypga.Instance.{Name}

-- Text mode: each of "\r\n", "\r" and "\n" ends a line. The flag says that a "\r" came before.
unfoldable pub newlines : Bool → List ℕ → List ℕ
newlines after_return [] = []
newlines after_return (c ∷ cs) =
    let rest = newlines (c == 13) cs in
    if c == 13 then 10 ∷ rest else (if after_return && c == 10 then rest else c ∷ rest)

-- `readlines`, with the start of a line; a line keeps its newline.
unfoldable pub read_lines : List ℕ → List ℕ → List (List ℕ)
read_lines [] [] = []
read_lines (l ∷ line) [] = (l ∷ line) ∷ []
read_lines line (c ∷ cs) =
    let more = read_lines (line ++ (c ∷ [])) cs in
    let rest = read_lines [] cs in if c == 10 then (line ++ (c ∷ [])) ∷ rest else more

-- `str.isspace` in ASCII.
unfoldable pub is_space : ℕ → Bool
is_space c = leb 9 c && leb c 13 || leb 28 c && leb c 32

unfoldable pub lstrip : List ℕ → List ℕ
unfolding is_space
lstrip [] = []
lstrip (c ∷ cs) = let rest = lstrip cs in if is_space c then rest else c ∷ cs

-- A character before what is stripped.
unfoldable pub keep_front : ℕ → List ℕ → List ℕ
unfolding is_space
keep_front c [] = if is_space c then [] else c ∷ []
keep_front c (d ∷ ds) = c ∷ d ∷ ds

unfoldable pub rstrip : List ℕ → List ℕ
unfolding keep_front
rstrip [] = []
rstrip (c ∷ cs) = keep_front c (rstrip cs)

abbrev pub message : List ℕ
message =
    b'A' ∷ b'l' ∷ b'l' ∷ b' ' ∷ b'u' ∷ b's' ∷ b'e' ∷ b'r' ∷ b' ' ∷ b's' ∷ b'p' ∷ b'e' ∷ b'c' ∷ b'i'
    ∷ b'f' ∷ b'i' ∷ b'e' ∷ b'd' ∷ b' ' ∷ b't' ∷ b'i' ∷ b'm' ∷ b'i' ∷ b'n' ∷ b'g' ∷ b' ' ∷ b'c'
    ∷ b'o' ∷ b'n' ∷ b's' ∷ b't' ∷ b'r' ∷ b'a' ∷ b'i' ∷ b'n' ∷ b't' ∷ b's' ∷ b' ' ∷ b'a' ∷ b'r'
    ∷ b'e' ∷ b' ' ∷ b'm' ∷ b'e' ∷ b't' ∷ b'.' ∷ []

-- `message in [line.strip() for line in lines]`
unfoldable pub has_message : List (List ℕ) → Bool
unfolding same_name lstrip rstrip
has_message [] = false
has_message (line ∷ lines) = same_name (rstrip (lstrip line)) message || has_message lines

unfoldable pub timing_met : List ℕ → Bool
unfolding newlines read_lines has_message
timing_met log = has_message (read_lines [] (newlines false log))

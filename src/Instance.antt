-- ===== src/Instance.antt =====
-- The names of modules and registers: `_name`, `_parent`, `_get_parents` and `_get_full_name` of
-- pypga/core/module.py, and `_get_full_name` of pypga/core/register.py. A name is its characters.
pub mod Names
mod Tests
use pypga.Base.{ℕ, List, [], ◌∷◌, ◌++◌}

abbrev pub Name : Type 0
Name = List ℕ

-- A module instance, by what `_init_module` stores in it.
pub data Instance : Type 0 where
  top : Name → Instance
  child : Name → Instance → Instance

abbrev pub name : Instance → Name
name (top n) = n
name (child n p) = n

-- `while parent is not None: parents.insert(0, parent._name)`
parents_loop : List Name → Instance → List Name
parents_loop parents (top n) = n ∷ parents
parents_loop parents (child n p) = parents_loop (n ∷ parents) p

unfoldable pub get_parents : Instance → List Name
unfolding parents_loop
get_parents (top n) = n ∷ []
get_parents (child n p) = parents_loop (n ∷ []) p

-- `"_".join(names)`
unfoldable pub join : List Name → Name
join [] = []
join (n ∷ []) = n
join (n ∷ m ∷ ns) = n ++ (b'_' ∷ join (m ∷ ns))

-- `parents[0] + "." + "_".join(parents[1:])`
abbrev after_top : List Name → Name → Name
after_top [] last = last
after_top (n ∷ ns) last = n ++ (b'.' ∷ last)

rest_of : List Name → List Name
rest_of [] = []
rest_of (n ∷ ns) = ns

unfoldable pub module_full_name : Instance → Name
unfolding get_parents join rest_of
module_full_name instance = after_top (get_parents instance) (join (rest_of (get_parents instance)))

-- `f"{parents[0]}.{'_'.join(parents[1:] + [self.name])}_csr"`
unfoldable pub register_full_name : Instance → Name → Name
unfolding get_parents join rest_of
register_full_name instance register =
    after_top (get_parents instance)
      (join (rest_of (get_parents instance) ++ (register ∷ [])) ++ (b'_' ∷ b'c' ∷ b's' ∷ b'r' ∷ []))

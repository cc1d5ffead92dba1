-- ===== src/Instance/Names.antt =====
-- What the full names are made of, and which of them are the same.
use pypga.Base.{◌≡◌, refl, ap, sym, ◌∙◌, List, [], ◌∷◌, ◌++◌}
use mathlib.Core.List.{append_assoc}
use pypga.Instance.{Name, Instance, top, child, parents_loop, get_parents, join, register_full_name}

-- The names on the way from the top module to an instance.
abbrev pub path : Instance → List Name
path (top n) = n ∷ []
path (child n p) = path p ++ (n ∷ [])

parents_loop-path :
    (parents : List Name) (i : Instance) → parents_loop parents i ≡ path i ++ parents
unfolding parents_loop
parents_loop-path parents (top n) = refl
parents_loop-path parents (child n p) =
    parents_loop-path (n ∷ parents) p ∙ sym (append_assoc (path p) (n ∷ []) parents)

-- The loop over the parents gives the names on the way from the top module.
pub get_parents-path : (i : Instance) → get_parents i ≡ path i
unfolding get_parents
get_parents-path (top n) = refl
get_parents-path (child n p) = parents_loop-path (n ∷ []) p

-- The names below the top module.
abbrev pub below : Instance → List Name
below (top n) = []
below (child n p) = below p ++ (n ∷ [])

-- The top module of an instance.
abbrev pub root : Instance → Name
root (top n) = n
root (child n p) = root p

path-root : (i : Instance) → path i ≡ root i ∷ below i
path-root (top n) = refl
path-root (child n p) = rw (path-root p) refl

pub full_name_below :
    (i : Instance) (r : Name)
    → register_full_name i r
      ≡ root i ++ (b'.' ∷ (join (below i ++ (r ∷ [])) ++ (b'_' ∷ b'c' ∷ b's' ∷ b'r' ∷ [])))
unfolding register_full_name
full_name_below i r = rw (get_parents-path i, path-root i) refl

join-snoc :
    (xs : List Name) (m n : Name)
    → join (xs ++ (m ∷ n ∷ [])) ≡ join (xs ++ ((m ++ (b'_' ∷ n)) ∷ []))
unfolding join
join-snoc [] m n = refl
join-snoc (x ∷ []) m n = refl
join-snoc (x ∷ y ∷ xs) m n = ap (λ l. x ++ (b'_' ∷ l)) (join-snoc (y ∷ xs) m n)

-- Full names are not unique: a register r of a submodule m has the full name of a register that is
-- called m_r in the module above.
pub full_name_clash :
    (i : Instance) (m r : Name)
    → register_full_name (child m i) r ≡ register_full_name i (m ++ (b'_' ∷ r))
full_name_clash i m r =
    full_name_below (child m i) r
    ∙ ap (λ l. root i ++ (b'.' ∷ (l ++ (b'_' ∷ b'c' ∷ b's' ∷ b'r' ∷ []))))
        (ap join (append_assoc (below i) (m ∷ []) (r ∷ [])) ∙ join-snoc (below i) m r)
    ∙ sym (full_name_below i (m ++ (b'_' ∷ r)))

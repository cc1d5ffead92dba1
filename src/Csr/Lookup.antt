-- ===== src/Csr/Lookup.antt =====
-- A look-up finds the last row of its name.
use pypga.Base.{
  ℕ, ◌≡◌, refl, ap, ◌∙◌, Bool, true, false, Bool-cases, inl, inr, ◌&&◌, if◌then◌else◌, List, [],
  ◌∷◌, Option, none, some, arith,
}
use pypga.Base.Options.{map_option}
use pypga.Instance.{Name}
use pypga.Csr.{Row, CsrMap, same_name, assign, lookup, add_row, load_from, create, get_item, empty}

pub same_name_refl : (n : Name) → same_name n n ≡ true
unfolding same_name
same_name_refl [] = refl
same_name_refl (x ∷ xs) = ground (arith, same_name_refl xs)

pub same_name_eq : (m n : Name) → same_name m n ≡ true → m ≡ n
unfolding same_name
same_name_eq [] [] h = refl
same_name_eq [] (y ∷ ys) h = absurd (ground arith)
same_name_eq (x ∷ xs) [] h = absurd (ground arith)
same_name_eq (x ∷ xs) (y ∷ ys) h = ground (arith, same_name_eq xs ys)

if_same :
    {A : Type 0} (b : Bool) (x y z : A)
    → (if b then x else z) ≡ (if b then x else (if b then y else z))
if_same true x y z = refl
if_same false x y z = refl

if_swap :
    {A : Type 0} (a b : Bool) (x y z : A)
    → a && b ≡ false
    → (if a then x else (if b then y else z)) ≡ (if b then y else (if a then x else z))
if_swap true true x y z h = absurd (ground arith)
if_swap true false x y z h = refl
if_swap false b x y z h = refl

-- Two names that are not the same are not both the third one.
not_both : (m n k : Name) → same_name m n ≡ false → same_name m k && same_name n k ≡ false
not_both m n k h = elim (Bool-cases (same_name m k)) [
  | inl a ↦ elim (Bool-cases (same_name n k)) [
    | inl b ↦ absurd (ground (arith, clash a b))
    | inr b ↦ ground arith
  ]
  | inr a ↦ ground arith
]
  where
    clash : same_name m k ≡ true → same_name n k ≡ true → same_name m n ≡ true
    clash a b = rw (same_name_eq m k a, same_name_eq n k b) (same_name_refl k)

module _ {V : Type 0} where
  pub lookup-assign :
      (n k : Name) (v : V) (d : List (Name × V))
      → lookup k (assign n v d) ≡ (if same_name n k then some v else lookup k d)
  unfolding assign lookup
  lookup-assign n k v [] = refl
  lookup-assign n k v (e ∷ d) = elim (Bool-cases (same_name e.0 n)) [
    | inl same ↦
        rw (same, same_name_eq e.0 n same)
          (if_same (same_name n k) (some v) (some e.1) (lookup k d))
    | inr other ↦
        rw (other, lookup-assign n k v d)
          (if_swap (same_name e.0 k) (same_name n k) (some e.1) (some v) (lookup k d)
            (not_both e.0 n k other))
  ]

-- The last row of a name.
abbrev pub find_last : Name → Option Row → List Row → Option Row
find_last k found [] = found
find_last k found (r ∷ rs) = find_last k (if same_name r.row_name k then some r else found) rs

-- What `__getitem__` gives for a row.
abbrev pub entry : Option Row → Option (ℕ × ℕ × Name)
entry none = none
entry (some r) = some (r.row_address, r.row_size, r.row_mode)

-- The three dicts hold what a row says, or nothing.
abbrev Holds : Name → Option Row → CsrMap → Type 0
Holds k found m =
    (lookup k m.address ≡ map_option (λ (r : Row). r.row_address) found)
    × (lookup k m.size ≡ map_option (λ (r : Row). r.row_size) found)
    × (lookup k m.mode ≡ map_option (λ (r : Row). r.row_mode) found)

map_if :
    {A : Type 0} (b : Bool) (f : Row → A) (r : Row) (found : Option Row)
    → (if b then some (f r) else map_option f found) ≡ map_option f (if b then some r else found)
map_if true f r found = refl
map_if false f r found = refl

add_row-Holds :
    (k : Name) (found : Option Row) (m : CsrMap) (r : Row)
    → Holds k found m
    → Holds k (if same_name r.row_name k then some r else found) (add_row m r)
unfolding add_row
add_row-Holds k found m r (a, s, o) = (
  lookup-assign r.row_name k r.row_address m.address
      ∙ ap (λ x. if same_name r.row_name k then some r.row_address else x) a
      ∙ map_if (same_name r.row_name k) (λ x. x.row_address) r found,
  lookup-assign r.row_name k r.row_size m.size
      ∙ ap (λ x. if same_name r.row_name k then some r.row_size else x) s
      ∙ map_if (same_name r.row_name k) (λ x. x.row_size) r found,
  lookup-assign r.row_name k r.row_mode m.mode
      ∙ ap (λ x. if same_name r.row_name k then some r.row_mode else x) o
      ∙ map_if (same_name r.row_name k) (λ x. x.row_mode) r found,
)

load_from-Holds :
    (k : Name) (found : Option Row) (m : CsrMap) (rows : List Row)
    → Holds k found m
    → Holds k (find_last k found rows) (load_from m rows)
unfolding load_from
load_from-Holds k found m [] h = h
load_from-Holds k found m (r ∷ rs) h =
    load_from-Holds k (if same_name r.row_name k then some r else found) (add_row m r) rs
      (add_row-Holds k found m r h)

get_item-Holds :
    (k : Name) (found : Option Row) (m : CsrMap) → Holds k found m → get_item m k ≡ entry found
unfolding get_item
get_item-Holds k none m (a, s, o) = rw (a) refl
get_item-Holds k (some r) m (a, s, o) = rw (a, s, o) refl

-- An item of the map of a file is what the last row of its name says, and there is none just when
-- no row has the name.
pub get_item-last :
    (rows : List Row) (k : Name) → get_item (create (some rows)) k ≡ entry (find_last k none rows)
unfolding create
get_item-last rows k =
    get_item-Holds k (find_last k none rows) (load_from empty rows)
      (load_from-Holds k none empty rows (unfold lookup in (refl, refl, refl)))

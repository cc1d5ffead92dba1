-- ===== src/Files/Paths.antt =====
-- Which paths are beneath which.
use pypga.Base.{◌≡◌, refl, true, false, Bool-cases, ◌⊎◌, inl, inr, [], ◌∷◌, ◌++◌, arith}
use pypga.Csr.{same_name}
use pypga.Csr.Lookup.{same_name_refl, same_name_eq}
use pypga.Instance.{Name}
use pypga.Files.{Location, beneath, same_path}

pub beneath_refl : (p : Location) → beneath p p ≡ true
unfolding beneath
beneath_refl [] = refl
beneath_refl (n ∷ p) = ground (arith, same_name_refl n, beneath_refl p)

pub beneath-append : (p q : Location) → beneath p (p ++ q) ≡ true
unfolding beneath
beneath-append [] q = refl
beneath-append (n ∷ p) q = ground (arith, same_name_refl n, beneath-append p q)

pub beneath_trans :
    (p q r : Location) → beneath p q ≡ true → beneath q r ≡ true → beneath p r ≡ true
unfolding beneath
beneath_trans [] q r h k = refl
beneath_trans (n ∷ p) [] r h k = absurd (ground arith)
beneath_trans (n ∷ p) (m ∷ q) [] h k = absurd (ground arith)
beneath_trans (n ∷ p) (m ∷ q) (l ∷ r) h k =
    ground (arith, same_name_eq n m, same_name_eq m l, beneath_trans p q r)

pub beneath_antisym : (p q : Location) → beneath p q ≡ true → beneath q p ≡ true → p ≡ q
unfolding beneath
beneath_antisym [] [] h k = refl
beneath_antisym [] (m ∷ q) h k = absurd (ground arith)
beneath_antisym (n ∷ p) [] h k = absurd (ground arith)
beneath_antisym (n ∷ p) (m ∷ q) h k = ground (arith, same_name_eq n m, beneath_antisym p q)

-- Two folders that a path is beneath are beneath each other.
pub beneath_total :
    (p q r : Location)
    → beneath p r ≡ true
    → beneath q r ≡ true
    → (beneath p q ≡ true) ⊎ (beneath q p ≡ true)
unfolding beneath
beneath_total [] q r h k = inl refl
beneath_total (n ∷ p) [] r h k = inr refl
beneath_total (n ∷ p) (m ∷ q) [] h k = absurd (ground arith)
beneath_total (n ∷ p) (m ∷ q) (l ∷ r) h k =
    ground (arith, same_name_eq n l, same_name_eq m l, same_name_refl l, beneath_total p q r)

pub same_path_refl : (p : Location) → same_path p p ≡ true
unfolding same_path
same_path_refl p = ground (arith, beneath_refl p)

pub same_path_eq : (p q : Location) → same_path p q ≡ true → p ≡ q
unfolding same_path
same_path_eq p q h = ground (arith, beneath_antisym p q)

-- Neither of two folders is beneath the other.
abbrev pub Apart : Location → Location → Type 0
Apart p q = (beneath p q ≡ false) × (beneath q p ≡ false)

-- What is beneath one of them is not beneath the other.
pub Apart-beneath : (p q r : Location) → Apart p q → beneath p r ≡ true → beneath q r ≡ false
Apart-beneath p q r (h, k) b = elim (Bool-cases (beneath q r)) [
  | inl t ↦ absurd (elim (beneath_total p q r b t) [ inl e ↦ ground arith | inr e ↦ ground arith ])
  | inr f ↦ f
]

-- Folders below folders that are apart are apart.
pub Apart-append : (p q r s : Location) → Apart p q → Apart (p ++ r) (q ++ s)
unfolding beneath
Apart-append [] q r s h = absurd (ground arith)
Apart-append (n ∷ p) [] r s h = absurd (ground arith)
Apart-append (n ∷ p) (m ∷ q) r s h =
    ground (arith, same_name_eq n m, same_name_eq m n, same_name_refl n, Apart-append p q r s)

-- A folder has one path of a name.
pub last-eq : (p : Location) (a b : Name) → same_path (p ++ (a ∷ [])) (p ++ (b ∷ [])) ≡ true → a ≡ b
unfolding same_path beneath
last-eq [] a b h = ground (arith, same_name_eq a b)
last-eq (n ∷ p) a b h = ground (arith, last-eq p a b)

pub Apart-same : (p q : Location) → Apart p q → same_path p q ≡ false
unfolding same_path
Apart-same p q (h, k) = ground arith

pub last-ne :
    (p : Location) (a b : Name)
    → same_name a b ≡ false
    → same_path (p ++ (a ∷ [])) (p ++ (b ∷ [])) ≡ false
unfolding same_path beneath
last-ne [] a b h = ground arith
last-ne (n ∷ p) a b h = ground (arith, last-ne p a b h)

-- What is not beneath a folder is not one of its entries.
pub outside :
    (b q : Location) (n : Name) → beneath b q ≡ false → same_path (b ++ (n ∷ [])) q ≡ false
unfolding same_path
outside b q n h = elim (Bool-cases (beneath (b ++ (n ∷ [])) q)) [
  | inl t ↦ absurd (ground (arith, beneath_trans b (b ++ (n ∷ [])) q (beneath-append b (n ∷ [])) t))
  | inr f ↦ ground arith
]

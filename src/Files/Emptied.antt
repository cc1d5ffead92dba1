-- ===== src/Files/Emptied.antt =====
-- `empty_path`: what there is behind it, and when it succeeds.
use pypga.Base.{
  ◌≡◌, refl, true, false, Bool-cases, ◌⊎◌, inl, inr, List, [], ◌∷◌, ◌++◌, ap, sym, ◌∙◌, none, some,
  ℕ, arith,
}
use mathlib.Core.List.{append_assoc, append-nil}
use pypga.Instance.{Name}
use pypga.Files.{
  Location, Error, directory, file, Files, Outcome, done, raised, Attempt, beneath, same_path, put,
  cut, rmtree, mkdir, empty_path, exists, continue, not_a_directory,
}
use pypga.Files.Paths.{beneath_refl, beneath_trans, beneath-append, same_path_refl}
use pypga.Files.Effects.{finished, at-cases, put-at, put-off}

-- A folder with nothing in it.
abbrev pub Emptied : Location → Files → Type 0
Emptied p fs =
    (fs p ≡ some directory)
    × ((q : Location) → beneath p q ≡ true → same_path p q ≡ false → fs q ≡ none)

-- Nothing is beneath a folder that is not there.
abbrev pub Rooted : Location → Files → Type 0
Rooted p fs = fs p ≡ none → (q : Location) → beneath p q ≡ true → fs q ≡ none

-- What a path is beneath is not strictly beneath it.
apart_from : (p ns q : Location) → beneath q (p ++ ns) ≡ false → same_path p q ≡ false
unfolding same_path
apart_from p ns q h = elim (Bool-cases (beneath q p)) [
  | inl t ↦ absurd (ground (arith, beneath_trans q p (p ++ ns) t (beneath-append p ns)))
  | inr f ↦ ground arith
]

below : (p q : Location) → beneath p q ≡ true → same_path p q ≡ false → beneath q p ≡ false
unfolding same_path
below p q b s = ground arith

-- `mkdir` changes only the folders on the way.
pub mkdir-off :
    (p : Location) (ns : List Name) (fs : Files) (q : Location)
    → beneath q (p ++ ns) ≡ false
    → (mkdir p ns fs).1 q ≡ fs q
unfolding mkdir
mkdir-off p [] fs q h = refl
mkdir-off p (n ∷ ns) fs q h =
    let s : p ++ (n ∷ ns) ≡ (p ++ (n ∷ [])) ++ ns = sym (append_assoc p (n ∷ []) ns) in
    let k : beneath q ((p ++ (n ∷ [])) ++ ns) ≡ false = ap (beneath q) (sym s) ∙ h in
    at-cases fs (p ++ (n ∷ []))
      (λ e.
        rw (e, mkdir)
          (mkdir-off (p ++ (n ∷ [])) ns (put (p ++ (n ∷ [])) directory fs) q k
            ∙ put-off (p ++ (n ∷ [])) directory fs q (apart_from (p ++ (n ∷ [])) ns q k)))
      (λ e. rw (e, mkdir) (mkdir-off (p ++ (n ∷ [])) ns fs q k)) (λ c e. rw (e, mkdir) refl)

pub mkdir-at :
    (p : Location) (ns : List Name) (fs : Files)
    → fs p ≡ some directory
    → finished (mkdir p ns fs).0 ≡ true
    → (mkdir p ns fs).1 (p ++ ns) ≡ some directory
unfolding mkdir
mkdir-at p [] fs d = λ h. ap fs (append-nil p) ∙ d
mkdir-at p (n ∷ ns) fs d =
    let r : Location = p ++ (n ∷ []) in
    at-cases fs (p ++ (n ∷ []))
      (λ e.
        rw (sym (append_assoc p (n ∷ []) ns), e, mkdir)
          (mkdir-at r ns (put r directory fs) (put-at r directory fs r (same_path_refl r))))
      (λ e. rw (sym (append_assoc p (n ∷ []) ns), e, mkdir) (mkdir-at r ns fs e))
      (λ c e. rw (e, mkdir) (λ h. absurd (ground arith)))

pub cut-at : (p : Location) (fs : Files) (q : Location) → beneath p q ≡ true → cut p fs q ≡ none
unfolding cut
cut-at p fs q h = rw h

-- The three branches of `empty_path`.
empty_path-none : (p : Location) (fs : Files) → fs p ≡ none → empty_path p fs ≡ mkdir [] p fs
unfolding empty_path exists
empty_path-none p fs e = rw (e, exists) refl

rmtree-directory :
    (p : Location) (fs : Files) → fs p ≡ some directory → rmtree p fs ≡ (done tt, cut p fs)
unfolding rmtree
rmtree-directory p fs e = rw (e, rmtree) refl

rmtree-file :
    (p : Location) (fs : Files) (c : List ℕ)
    → fs p ≡ some (file c)
    → rmtree p fs ≡ (raised not_a_directory, fs)
unfolding rmtree
rmtree-file p fs c e = rw (e, rmtree) refl

pub empty_path-directory :
    (p : Location) (fs : Files) → fs p ≡ some directory → empty_path p fs ≡ mkdir [] p (cut p fs)
unfolding empty_path exists continue
empty_path-directory p fs e =
    rw (e, exists) (ap (continue (λ x. mkdir [] p)) (rmtree-directory p fs e))

empty_path-file :
    (p : Location) (fs : Files) (c : List ℕ)
    → fs p ≡ some (file c)
    → empty_path p fs ≡ (raised not_a_directory, fs)
unfolding empty_path exists continue
empty_path-file p fs c e = rw (e, exists) (ap (continue (λ x. mkdir [] p)) (rmtree-file p fs c e))

-- Here the root need not be looked at.
mkdir-top :
    (n : Name) (ns : List Name) (fs : Files)
    → finished (mkdir [] (n ∷ ns) fs).0 ≡ true
    → (mkdir [] (n ∷ ns) fs).1 (n ∷ ns) ≡ some directory
unfolding mkdir
mkdir-top n ns fs =
    at-cases fs (n ∷ [])
      (λ e.
        rw (e, mkdir)
          (mkdir-at (n ∷ []) ns (put (n ∷ []) directory fs)
            (put-at (n ∷ []) directory fs (n ∷ []) (same_path_refl (n ∷ [])))))
      (λ e. rw (e, mkdir) (mkdir-at (n ∷ []) ns fs e))
      (λ c e. rw (e, mkdir) (λ h. absurd (ground arith)))

mkdir-Emptied :
    (n : Name) (ns : List Name) (fs : Files)
    → ((q : Location) → beneath (n ∷ ns) q ≡ true → fs q ≡ none)
    → finished (mkdir [] (n ∷ ns) fs).0 ≡ true
    → Emptied (n ∷ ns) (mkdir [] (n ∷ ns) fs).1
mkdir-Emptied n ns fs r h =
    (mkdir-top n ns fs h, λ q b s. mkdir-off [] (n ∷ ns) fs q (below (n ∷ ns) q b s) ∙ r q b)

-- Behind `empty_path`, if it is through, the folder is there and has nothing in it.
pub empty_path-Emptied :
    (n : Name) (ns : List Name) (fs : Files)
    → Rooted (n ∷ ns) fs
    → finished (empty_path (n ∷ ns) fs).0 ≡ true
    → Emptied (n ∷ ns) (empty_path (n ∷ ns) fs).1
unfolding cut
empty_path-Emptied n ns fs r =
    at-cases fs (n ∷ ns) (λ e. rw (empty_path-none (n ∷ ns) fs e) (mkdir-Emptied n ns fs (r e)))
      (λ e.
        rw (empty_path-directory (n ∷ ns) fs e)
          (mkdir-Emptied n ns (cut (n ∷ ns) fs) (λ q b. cut-at (n ∷ ns) fs q b)))
      (λ c e. rw (empty_path-file (n ∷ ns) fs c e) (λ h. absurd (ground arith)))

-- No file is in the place of a folder on the way.
abbrev pub Free : Location → Files → Type 0
Free p fs = (q : Location) → beneath q p ≡ true → (fs q ≡ none) ⊎ (fs q ≡ some directory)

put-Free : (r p : Location) (fs : Files) → Free p fs → Free p (put r directory fs)
unfolding put
put-Free r p fs f q b = ground (arith, f q b)

cut-Free : (r p : Location) (fs : Files) → Free p fs → Free p (cut r fs)
unfolding cut
cut-Free r p fs f q b = ground (arith, f q b)

mkdir-finished :
    (p : Location) (ns : List Name) (fs : Files)
    → Free (p ++ ns) fs
    → finished (mkdir p ns fs).0 ≡ true
unfolding mkdir
mkdir-finished p [] fs f = refl
mkdir-finished p (n ∷ ns) fs f =
    let r : Location = p ++ (n ∷ []) in
    let s : p ++ (n ∷ ns) ≡ r ++ ns = sym (append_assoc p (n ∷ []) ns) in
    let g : Free (r ++ ns) fs = rw (sym s) f in
    elim (g r (beneath-append r ns)) [
      | inl e ↦ rw (e, mkdir) (mkdir-finished r ns (put r directory fs) (put-Free r (r ++ ns) fs g))
      | inr e ↦ rw (e, mkdir) (mkdir-finished r ns fs g)
    ]

-- Then `empty_path` is through.
pub empty_path-finished :
    (p : Location) (fs : Files) → Free p fs → finished (empty_path p fs).0 ≡ true
empty_path-finished p fs f = elim (f p (beneath_refl p)) [
  | inl e ↦ rw (empty_path-none p fs e) (mkdir-finished [] p fs f)
  | inr e ↦ rw (empty_path-directory p fs e) (mkdir-finished [] p (cut p fs) (cut-Free p p fs f))
]

-- An attempt that is through has been through its first part, and then through its second.
pub continue-finished :
    {A B : Type 0} (P : Files → Type 0) (f : A → Attempt B) (r : Outcome A × Files)
    → ((a : A) → r.0 ≡ done a → finished (f a r.1).0 ≡ true → P (f a r.1).1)
    → finished (continue f r).0 ≡ true
    → P (continue f r).1
unfolding continue
continue-finished P f (done a, fs) k h = k a refl h
continue-finished P f (raised e, fs) k h = absurd (ground arith)

-- What holds when the first part fails, and when it is through.
pub continue-cases :
    {A B : Type 0} (P : Outcome B × Files → Type 0) (f : A → Attempt B) (r : Outcome A × Files)
    → ((e : Error) → r.0 ≡ raised e → P (raised e, r.1))
    → ((a : A) → r.0 ≡ done a → P (f a r.1))
    → P (continue f r)
unfolding continue
continue-cases P f (done a, fs) k l = l a refl
continue-cases P f (raised e, fs) k l = k e refl

-- An attempt is through when both of its parts are.
pub finished-continue :
    {A B : Type 0} (f : A → Attempt B) (r : Outcome A × Files)
    → finished r.0 ≡ true
    → ((a : A) → finished (f a r.1).0 ≡ true)
    → finished (continue f r).0 ≡ true
unfolding continue
finished-continue f (done a, fs) h k = k a
finished-continue f (raised e, fs) h k = absurd (ground arith)

mkdir-Free :
    (p : Location) (ns : List Name) (r : Location) (fs : Files)
    → Free r fs
    → Free r (mkdir p ns fs).1
unfolding mkdir
mkdir-Free p [] r fs f = f
mkdir-Free p (n ∷ ns) r fs f =
    at-cases fs (p ++ (n ∷ []))
      (λ e.
        rw (e, mkdir)
          (mkdir-Free (p ++ (n ∷ [])) ns r (put (p ++ (n ∷ [])) directory fs)
            (put-Free (p ++ (n ∷ [])) r fs f)))
      (λ e. rw (e, mkdir) (mkdir-Free (p ++ (n ∷ [])) ns r fs f)) (λ c e. rw (e, mkdir) f)

-- `empty_path` puts no file in the place of a folder.
pub empty_path-Free : (p r : Location) (fs : Files) → Free r fs → Free r (empty_path p fs).1
empty_path-Free p r fs f =
    at-cases fs p (λ e. rw (empty_path-none p fs e) (mkdir-Free [] p r fs f))
      (λ e. rw (empty_path-directory p fs e) (mkdir-Free [] p r (cut p fs) (cut-Free p r fs f)))
      (λ c e. rw (empty_path-file p fs c e) f)

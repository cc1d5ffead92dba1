-- ===== src/Files/Effects.antt =====
-- What the operations on files leave as it was.
use pypga.Base.{
  ◌≡◌, refl, Bool, true, false, Bool-cases, inl, inr, List, [], ◌∷◌, ◌++◌, ap, sym, ◌∙◌, Option,
  none, some, ℕ, arith,
}
use mathlib.Core.List.{append_assoc}
use pypga.Instance.{Name}
use pypga.Files.{
  Location, Node, directory, file, Files, Outcome, done, raised, Attempt, beneath, same_path, put,
  cut, rmtree, mkdir, empty_path, exists, is_dir, read_file, write_file, target, copy, continue,
}
use pypga.Files.Paths.{Apart, Apart-beneath, same_path_refl, beneath_trans, beneath-append}

abbrev pub finished : {A : Type 0} → Outcome A → Bool
finished (done a) = true
finished (raised e) = false

node-cases {ℓ} :
    {P : Type ℓ} (o : Option Node)
    → (o ≡ none → P)
    → (o ≡ some directory → P)
    → ((b : List ℕ) → o ≡ some (file b) → P)
    → P
node-cases none f g h = f refl
node-cases (some directory) f g h = g refl
node-cases (some (file b)) f g h = h b refl

-- What is at a path.
pub at-cases {ℓ} :
    {P : Type ℓ} (fs : Files) (p : Location)
    → (fs p ≡ none → P)
    → (fs p ≡ some directory → P)
    → ((b : List ℕ) → fs p ≡ some (file b) → P)
    → P
at-cases fs p f g h = node-cases (fs p) f g h

-- Everything beneath a folder, and the folder itself, is as before.
abbrev pub Keeps : Location → Files → Files → Type 0
Keeps other fs gs = (q : Location) → beneath other q ≡ true → gs q ≡ fs q

pub Keeps-trans :
    (other : Location) (fs gs hs : Files)
    → Keeps other fs gs
    → Keeps other gs hs
    → Keeps other fs hs
Keeps-trans other fs gs hs a b q h = b q h ∙ a q h

pub put-at :
    (p : Location) (n : Node) (fs : Files) (q : Location)
    → same_path p q ≡ true
    → put p n fs q ≡ some n
unfolding put
put-at p n fs q h = rw h

pub put-off :
    (p : Location) (n : Node) (fs : Files) (q : Location)
    → same_path p q ≡ false
    → put p n fs q ≡ fs q
unfolding put
put-off p n fs q h = rw h

pub put-Keeps :
    (other p : Location) (n : Node) (fs : Files)
    → beneath other p ≡ false
    → Keeps other fs (put p n fs)
unfolding put same_path
put-Keeps other p n fs h q b = elim (Bool-cases (beneath q p)) [
  | inl t ↦ absurd (ground (arith, beneath_trans other q p b t))
  | inr f ↦ ground arith
]

pub cut-Keeps : (other p : Location) (fs : Files) → Apart p other → Keeps other fs (cut p fs)
unfolding cut
cut-Keeps other p fs (a, c) q b = ground (arith, Apart-beneath other p q (c, a) b)

pub rmtree-Keeps :
    (other p : Location) (fs : Files) → Apart p other → Keeps other fs (rmtree p fs).1
unfolding rmtree
rmtree-Keeps other p fs a q b =
    at-cases fs p (λ e. rw (e, rmtree) refl) (λ e. rw (e, rmtree) (cut-Keeps other p fs a q b))
      (λ c e. rw (e, rmtree) refl)

-- A part of a path that is not beneath a folder.
above : (other p q : Location) → beneath other (p ++ q) ≡ false → beneath other p ≡ false
above other p q h = elim (Bool-cases (beneath other p)) [
  | inl t ↦ absurd (ground (arith, beneath_trans other p (p ++ q) t (beneath-append p q)))
  | inr f ↦ f
]

pub mkdir-Keeps :
    (other p : Location) (ns : List Name) (fs : Files)
    → beneath other (p ++ ns) ≡ false
    → Keeps other fs (mkdir p ns fs).1
unfolding mkdir
mkdir-Keeps other p [] fs h q b = refl
mkdir-Keeps other p (n ∷ ns) fs h q b =
    let s : p ++ (n ∷ ns) ≡ (p ++ (n ∷ [])) ++ ns = sym (append_assoc p (n ∷ []) ns) in
    let k : beneath other ((p ++ (n ∷ [])) ++ ns) ≡ false = ap (beneath other) (sym s) ∙ h in
    at-cases fs (p ++ (n ∷ []))
      (λ e.
        rw (e, mkdir)
          (mkdir-Keeps other (p ++ (n ∷ [])) ns (put (p ++ (n ∷ [])) directory fs) k q b
            ∙ put-Keeps other (p ++ (n ∷ [])) directory fs (above other (p ++ (n ∷ [])) ns k) q b))
      (λ e. rw (e, mkdir) (mkdir-Keeps other (p ++ (n ∷ [])) ns fs k q b))
      (λ c e. rw (e, mkdir) refl)

-- An attempt that keeps a folder, after one that does.
pub continue-Keeps :
    {A B : Type 0} (other : Location) (f : A → Attempt B) (fs : Files) (r : Outcome A × Files)
    → Keeps other fs r.1
    → ((a : A) (gs : Files) → Keeps other gs (f a gs).1)
    → Keeps other fs (continue f r).1
unfolding continue
continue-Keeps other f fs (done a, gs) h k q b = k a gs q b ∙ h q b
continue-Keeps other f fs (raised e, gs) h k q b = h q b

pub empty_path-Keeps :
    (other p : Location) (fs : Files) → Apart p other → Keeps other fs (empty_path p fs).1
unfolding empty_path
empty_path-Keeps other p fs a q b = elim (Bool-cases (exists p fs)) [
  | inl t ↦ rw t (
      continue-Keeps other (λ u. mkdir [] p) fs (rmtree p fs) (rmtree-Keeps other p fs a)
        (λ u gs. mkdir-Keeps other [] p gs a.1) q b)
  | inr f ↦ rw f (mkdir-Keeps other [] p fs a.1 q b)
]

pub read_file-Keeps : (other p : Location) (fs : Files) → Keeps other fs (read_file p fs).1
unfolding read_file
read_file-Keeps other p fs q b =
    at-cases fs p (λ e. rw (e, read_file) refl) (λ e. rw (e, read_file) refl)
      (λ c e. rw (e, read_file) refl)

pub write_file-Keeps :
    (other folder : Location) (name : Name) (bytes : List ℕ) (fs : Files)
    → beneath other (folder ++ (name ∷ [])) ≡ false
    → Keeps other fs (write_file folder name bytes fs).1
unfolding write_file
write_file-Keeps other folder name bytes fs h q b =
    ground (arith, put-Keeps other (folder ++ (name ∷ [])) (file bytes) fs h q b)

-- What is beneath one folder is not beneath another one that is apart.
pub Apart-below : (other p q : Location) → Apart p other → beneath other (p ++ q) ≡ false
Apart-below other p q a = Apart-beneath p other (p ++ q) a (beneath-append p q)

target-below :
    (other folder : Location) (name : Name) (fs : Files)
    → Apart folder other
    → beneath other (target folder name fs ++ (name ∷ [])) ≡ false
unfolding target
target-below other folder name fs a = elim (Bool-cases (is_dir (folder ++ (name ∷ [])) fs)) [
  | inl t ↦
      rw (t, append_assoc folder (name ∷ []) (name ∷ []))
        (Apart-below other folder (name ∷ name ∷ []) a)
  | inr f ↦ rw f (Apart-below other folder (name ∷ []) a)
]

pub copy-Keeps :
    (other source folder : Location) (name : Name) (fs : Files)
    → Apart folder other
    → Keeps other fs (copy source folder name fs).1
unfolding copy
copy-Keeps other source folder name fs a =
    continue-Keeps other _ fs (read_file (source ++ (name ∷ [])) fs)
      (read_file-Keeps other (source ++ (name ∷ [])) fs)
      (λ bytes gs.
        write_file-Keeps other (target folder name gs) name bytes gs
          (target-below other folder name gs a))

-- What a write that is through leaves.
pub write_file-at :
    (folder : Location) (name : Name) (bytes : List ℕ) (fs : Files)
    → finished (write_file folder name bytes fs).0 ≡ true
    → (write_file folder name bytes fs).1 (folder ++ (name ∷ [])) ≡ some (file bytes)
unfolding write_file
write_file-at folder name bytes fs h = ground (
  arith,
  put-at (folder ++ (name ∷ [])) (file bytes) fs (folder ++ (name ∷ []))
      (same_path_refl (folder ++ (name ∷ []))),
)

pub write_file-off :
    (folder : Location) (name : Name) (bytes : List ℕ) (fs : Files) (q : Location)
    → same_path (folder ++ (name ∷ [])) q ≡ false
    → (write_file folder name bytes fs).1 q ≡ fs q
unfolding write_file
write_file-off folder name bytes fs q h =
    ground (arith, put-off (folder ++ (name ∷ [])) (file bytes) fs q h)

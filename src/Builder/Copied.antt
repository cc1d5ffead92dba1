-- ===== src/Builder/Copied.antt =====
-- `copy_results`: each result is copied as it is, and nothing else.
use pypga.Base.{
  ◌≡◌, refl, Bool, true, false, Bool-cases, inl, inr, ◌||◌, List, [], ◌∷◌, ◌++◌, ap, sym, ◌∙◌, none,
  some, ℕ, arith,
}
use pypga.Instance.{Name}
use pypga.Files.{
  Location, directory, file, Files, Outcome, done, raised, Attempt, beneath, same_path, put,
  empty_path, continue, is_dir, read_file, write_file, copy, target,
}
use mathlib.Core.Path.{subst}
use pypga.Files.Paths.{Apart, Apart-append, Apart-same, last-eq, beneath-append}
use pypga.Files.Effects.{
  finished, Keeps, empty_path-Keeps, at-cases, put-at, put-off, copy-Keeps, continue-Keeps,
}
use pypga.Files.Emptied.{continue-finished, Emptied, Rooted, empty_path-Emptied}
use pypga.Builder.{copy_all, copy_results}

-- A file that can be written to the folder.
abbrev pub Writable : Location → Name → Files → Type 0
Writable folder name fs = (is_dir folder fs ≡ true) × (is_dir (folder ++ (name ∷ [])) fs ≡ false)

pub write_file-Writable :
    (folder : Location) (name : Name) (bytes : List ℕ) (fs : Files)
    → Writable folder name fs
    → write_file folder name bytes fs ≡ (done tt, put (folder ++ (name ∷ [])) (file bytes) fs)
unfolding write_file
write_file-Writable folder name bytes fs (d, n) = rw (n, d) refl

target-Writable :
    (folder : Location) (name : Name) (fs : Files)
    → Writable folder name fs
    → target folder name fs ≡ folder
unfolding target
target-Writable folder name fs (d, n) = rw n refl

read_file-file :
    (p : Location) (fs : Files) (c : List ℕ) → fs p ≡ some (file c) → read_file p fs ≡ (done c, fs)
unfolding read_file
read_file-file p fs c e = rw (e, read_file) refl

-- A copy of a file that is there.
pub copy-file :
    (source folder : Location) (name : Name) (bytes : List ℕ) (fs : Files)
    → Writable folder name fs
    → fs (source ++ (name ∷ [])) ≡ some (file bytes)
    → copy source folder name fs ≡ (done tt, put (folder ++ (name ∷ [])) (file bytes) fs)
unfolding copy continue
copy-file source folder name bytes fs w e =
    ap (continue (λ b gs. write_file (target folder name gs) name b gs))
      (read_file-file (source ++ (name ∷ [])) fs bytes e)
    ∙ ap (λ t. write_file t name bytes fs) (target-Writable folder name fs w)
    ∙ write_file-Writable folder name bytes fs w

not_continued :
    {A B : Type 0} (f : A → Attempt B) (r : Outcome A × Files)
    → finished r.0 ≡ false
    → finished (continue f r).0 ≡ false
unfolding continue
not_continued f (done a, fs) h = absurd (ground arith)
not_continued f (raised e, fs) h = refl

copy-other :
    (source folder : Location) (name : Name) (fs : Files)
    → finished (read_file (source ++ (name ∷ [])) fs).0 ≡ false
    → finished (copy source folder name fs).0 ≡ false
unfolding copy
copy-other source folder name fs h =
    not_continued (λ b gs. write_file (target folder name gs) name b gs)
      (read_file (source ++ (name ∷ [])) fs) h

-- The paths of some names in a folder.
abbrev pub named : Location → List Name → Location → Bool
named folder [] q = false
named folder (n ∷ ns) q = same_path (folder ++ (n ∷ [])) q || named folder ns q

abbrev pub is_file : Location → Files → Bool
is_file p fs = elim (fs p) [ none ↦ false | some n ↦ elim n [ directory ↦ false | file b ↦ true ] ]

-- The files of some names are those of another folder, and all else is as before.
abbrev pub Copied : Location → Location → List Name → Files → Files → Type 0
Copied source folder names fs gs =
    ((n : Name)
      → named folder names (folder ++ (n ∷ [])) ≡ true
      → (gs (folder ++ (n ∷ [])) ≡ fs (source ++ (n ∷ [])))
        × (is_file (source ++ (n ∷ [])) fs ≡ true))
    × ((q : Location) → named folder names q ≡ false → gs q ≡ fs q)

-- A folder without folders in it.
abbrev pub Plain : Location → Files → Type 0
Plain folder fs = (is_dir folder fs ≡ true) × ((n : Name) → is_dir (folder ++ (n ∷ [])) fs ≡ false)

put-is_dir :
    (p q : Location) (bytes : List ℕ) (fs : Files)
    → is_dir q fs ≡ true
    → same_path p q ≡ false
    → is_dir q (put p (file bytes) fs) ≡ true
unfolding is_dir
put-is_dir p q bytes fs h e = rw (put-off p (file bytes) fs q e, is_dir) h

not_dir :
    (p q : Location) (bytes : List ℕ) (fs : Files)
    → is_dir q fs ≡ false
    → is_dir q (put p (file bytes) fs) ≡ false
unfolding is_dir
not_dir p q bytes fs h = elim (Bool-cases (same_path p q)) [
  | inl t ↦ rw (put-at p (file bytes) fs q t, is_dir) refl
  | inr f ↦ rw (put-off p (file bytes) fs q f, is_dir) h
]

below_folder : (p : Location) (n : Name) → same_path (p ++ (n ∷ [])) p ≡ false
unfolding same_path beneath
below_folder [] n = refl
below_folder (m ∷ p) n = ground (arith, below_folder p n)

swapped : (p : Location) (n : Name) → same_path p (p ++ (n ∷ [])) ≡ false
unfolding same_path beneath
swapped [] n = refl
swapped (m ∷ p) n = ground (arith, swapped p n)

pub put-Plain :
    (folder : Location) (n : Name) (bytes : List ℕ) (fs : Files)
    → Plain folder fs
    → Plain folder (put (folder ++ (n ∷ [])) (file bytes) fs)
put-Plain folder n bytes fs (d, w) = (
  put-is_dir (folder ++ (n ∷ [])) folder bytes fs d (below_folder folder n),
  λ m. not_dir (folder ++ (n ∷ [])) (folder ++ (m ∷ [])) bytes fs (w m),
)

pub is_file-eq :
    (p : Location) (fs gs : Files) → gs p ≡ fs p → is_file p gs ≡ true → is_file p fs ≡ true
is_file-eq p fs gs e h = rw (sym e, is_file) h

Copied-step :
    (source folder : Location) (n : Name) (ns : List Name) (bytes : List ℕ) (fs gs : Files)
    → Apart folder source
    → fs (source ++ (n ∷ [])) ≡ some (file bytes)
    → is_file (source ++ (n ∷ [])) fs ≡ true
    → Copied source folder ns (put (folder ++ (n ∷ [])) (file bytes) fs) gs
    → Copied source folder (n ∷ ns) fs gs
Copied-step source folder n ns bytes fs gs a e i (c, o) =
    let off : (k : Name)
        → put (folder ++ (n ∷ [])) (file bytes) fs (source ++ (k ∷ [])) ≡ fs (source ++ (k ∷ [])) =
      λ k. put-off (folder ++ (n ∷ [])) (file bytes) fs (source ++ (k ∷ [])) (
        Apart-same (folder ++ (n ∷ [])) (source ++ (k ∷ []))
          (Apart-append folder source (n ∷ []) (k ∷ []) a)) in
    (
      λ k h. elim (Bool-cases (named folder ns (folder ++ (k ∷ [])))) [
        | inl t ↦ (
          (c k t).0 ∙ off k,
          is_file-eq (source ++ (k ∷ [])) fs (put (folder ++ (n ∷ [])) (file bytes) fs) (off k)
              (c k t).1,
        )
        | inr f ↦
            let s : same_path (folder ++ (n ∷ [])) (folder ++ (k ∷ [])) ≡ true = ground arith in
            let m : n ≡ k = last-eq folder n k s in
            (
              o (folder ++ (k ∷ [])) f
                  ∙ put-at (folder ++ (n ∷ [])) (file bytes) fs (folder ++ (k ∷ [])) s
                  ∙ sym e
                  ∙ ap (λ x. fs (source ++ (x ∷ []))) m,
              subst (λ x. is_file (source ++ (x ∷ [])) fs ≡ true) m i,
            )
      ],
      λ q h. o q (ground arith) ∙ put-off (folder ++ (n ∷ [])) (file bytes) fs q (ground arith),
    )

not_through :
    (source folder : Location) (n : Name) (ns : List Name) (fs : Files)
    → finished (read_file (source ++ (n ∷ [])) fs).0 ≡ false
    → finished (copy_all source folder (n ∷ ns) fs).0 ≡ true
    → ⊥
unfolding copy_all
not_through source folder n ns fs r h = absurd (
    ground (
      arith,
      not_continued (λ x. copy_all source folder ns) (copy source folder n fs)
          (copy-other source folder n fs r),
    ))

copy_all-Copied :
    (source folder : Location) (names : List Name) (fs : Files)
    → Apart folder source
    → Plain folder fs
    → finished (copy_all source folder names fs).0 ≡ true
    → Copied source folder names fs (copy_all source folder names fs).1
unfolding copy_all continue
copy_all-Copied source folder [] fs a p = λ h. (λ n e. absurd (ground arith), λ q e. refl)
copy_all-Copied source folder (n ∷ ns) fs a p =
    at-cases fs (source ++ (n ∷ []))
      (λ e h. absurd (not_through source folder n ns fs (rw (e, read_file) refl) h))
      (λ e h. absurd (not_through source folder n ns fs (rw (e, read_file) refl) h))
      (λ b e. rw (copy-file source folder n b fs (p.0, p.1 n) e) (λ h.
        Copied-step source folder n ns b fs
          (copy_all source folder ns (put (folder ++ (n ∷ [])) (file b) fs)).1 a e
          (rw (e, is_file) refl)
          (copy_all-Copied source folder ns (put (folder ++ (n ∷ [])) (file b) fs) a
            (put-Plain folder n b fs p) h)))

-- A folder has the files of some names as another folder had them, and nothing else.
abbrev pub Exactly : Location → Location → List Name → Files → Files → Type 0
Exactly source folder names fs gs =
    (gs folder ≡ some directory)
    × ((n : Name)
        → named folder names (folder ++ (n ∷ [])) ≡ true
        → (gs (folder ++ (n ∷ [])) ≡ fs (source ++ (n ∷ [])))
          × (is_file (source ++ (n ∷ [])) fs ≡ true))
    × ((q : Location)
        → beneath folder q ≡ true
        → same_path folder q ≡ false
        → named folder names q ≡ false
        → gs q ≡ none)

pub Emptied-Plain : (p : Location) (fs : Files) → Emptied p fs → Plain p fs
unfolding is_dir
Emptied-Plain p fs (d, e) = (
  rw (d, is_dir) refl,
  λ n. rw (e (p ++ (n ∷ [])) (beneath-append p (n ∷ [])) (swapped p n), is_dir) refl,
)

named-folder : (folder : Location) (names : List Name) → named folder names folder ≡ false
named-folder folder [] = refl
named-folder folder (n ∷ ns) = ground (arith, below_folder folder n, named-folder folder ns)

Exactly-after :
    (source folder : Location) (names : List Name) (fs es gs : Files)
    → Keeps source fs es
    → Emptied folder es
    → Copied source folder names es gs
    → Exactly source folder names fs gs
Exactly-after source folder names fs es gs k (d, e) (c, o) =
    let same : (n : Name) → es (source ++ (n ∷ [])) ≡ fs (source ++ (n ∷ [])) =
      λ n. k (source ++ (n ∷ [])) (beneath-append source (n ∷ [])) in
    (
      o folder (named-folder folder names) ∙ d,
      λ n h. ((c n h).0 ∙ same n, is_file-eq (source ++ (n ∷ [])) fs es (same n) (c n h).1),
      λ q b s h. o q h ∙ e q b s,
    )

-- `copy_results`, if it is through.
pub copy_results-Exactly :
    (source : Location) (m : Name) (p : Location) (names : List Name) (fs : Files)
    → Apart (m ∷ p) source
    → Rooted (m ∷ p) fs
    → finished (copy_results names source (m ∷ p) fs).0 ≡ true
    → Exactly source (m ∷ p) names fs (copy_results names source (m ∷ p) fs).1
unfolding copy_results
copy_results-Exactly source m p names fs a r =
    continue-finished (Exactly source (m ∷ p) names fs) (λ x. copy_all source (m ∷ p) names)
      (empty_path (m ∷ p) fs)
      (λ x e h.
        let es : Files = (empty_path (m ∷ p) fs).1 in
        let c : Emptied (m ∷ p) es = empty_path-Emptied m p fs r (rw e refl) in
        Exactly-after source (m ∷ p) names fs es (copy_all source (m ∷ p) names es).1
          (empty_path-Keeps source (m ∷ p) fs a) c
          (copy_all-Copied source (m ∷ p) names es a (Emptied-Plain (m ∷ p) es c) h))

copy_all-Keeps :
    (other source folder : Location) (names : List Name) (fs : Files)
    → Apart folder other
    → Keeps other fs (copy_all source folder names fs).1
unfolding copy_all
copy_all-Keeps other source folder [] fs a = λ q b. refl
copy_all-Keeps other source folder (n ∷ ns) fs a =
    continue-Keeps other (λ x. copy_all source folder ns) fs (copy source folder n fs)
      (copy-Keeps other source folder n fs a) (λ x gs. copy_all-Keeps other source folder ns gs a)

pub copy_results-Keeps :
    (other source folder : Location) (names : List Name) (fs : Files)
    → Apart folder other
    → Keeps other fs (copy_results names source folder fs).1
unfolding copy_results
copy_results-Keeps other source folder names fs a =
    continue-Keeps other (λ x. copy_all source folder names) fs (empty_path folder fs)
      (empty_path-Keeps other folder fs a) (λ x gs. copy_all-Keeps other source folder names gs a)

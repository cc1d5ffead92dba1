-- ===== src/Builder/Success.antt =====
-- A build comes to its end when the tools do their part.
use pypga.Base.{
  ◌≡◌, ◌⊎◌, refl, ap, sym, ◌∙◌, ℕ, true, false, Bool-cases, inl, inr, List, [], ◌∷◌, ◌++◌, none,
  some, All, arith,
}
use mathlib.Core.Path.{subst}
use pypga.Instance.{Name}
use pypga.Csr.{same_name}
use pypga.Files.{
  Location, directory, file, Files, Outcome, done, raised, Attempt, beneath, continue, empty_path,
  put, write_file,
}
use pypga.Files.Paths.{
  Apart, Apart-append, Apart-same, beneath_trans, beneath-append, outside, last-ne, same_path_refl,
  Apart-beneath,
}
use pypga.Files.Effects.{finished, Keeps, at-cases, put-at, put-off, empty_path-Keeps}
use pypga.Files.Emptied.{
  Free, Rooted, empty_path-Free, empty_path-finished, empty_path-Emptied, finished-continue,
}
use pypga.Builder.{
  build, check_timing, copy_all, copy_results, build_stemlab, stemlab_builder, csr_csv,
  bitstream_bin,
}
use pypga.Builder.Copied.{
  Plain, put-Plain, copy-file, is_file, is_file-eq, Emptied-Plain, Writable, write_file-Writable,
}
use pypga.Builder.Results.{Rooted-Keeps}
use pypga.Builder.Steps.{Within, before, log_met, check_timing-log}

-- The files of some names are there.
abbrev There : Location → Files → List Name → Type 0
There source fs names = All (λ n. is_file (source ++ (n ∷ [])) fs ≡ true) names

There-same :
    (source : Location) (fs gs : Files) (names : List Name)
    → ((n : Name) → gs (source ++ (n ∷ [])) ≡ fs (source ++ (n ∷ [])))
    → There source fs names
    → There source gs names
There-same source fs gs [] h t = tt
There-same source fs gs (n ∷ ns) h (t, ts) =
    (is_file-eq (source ++ (n ∷ [])) gs fs (sym (h n)) t, There-same source fs gs ns h ts)

copy_all-finished :
    (source folder : Location) (names : List Name) (fs : Files)
    → Apart folder source
    → Plain folder fs
    → There source fs names
    → finished (copy_all source folder names fs).0 ≡ true
unfolding copy_all continue
copy_all-finished source folder [] fs a p = λ t. refl
copy_all-finished source folder (n ∷ ns) fs a p =
    at-cases fs (source ++ (n ∷ [])) (λ e. rw (e, is_file) (λ t. absurd (ground arith)))
      (λ e. rw (e, is_file) (λ t. absurd (ground arith)))
      (λ b e. rw (copy-file source folder n b fs (p.0, p.1 n) e) (λ t.
        copy_all-finished source folder ns (put (folder ++ (n ∷ [])) (file b) fs) a
          (put-Plain folder n b fs p)
          (There-same source fs (put (folder ++ (n ∷ [])) (file b) fs) ns
            (λ k. put-off (folder ++ (n ∷ [])) (file b) fs (source ++ (k ∷ [])) (
              Apart-same (folder ++ (n ∷ [])) (source ++ (k ∷ []))
                (Apart-append folder source (n ∷ []) (k ∷ []) a)))
            t.1)))

copy_results-finished :
    (source : Location) (m : Name) (p : Location) (names : List Name) (fs : Files)
    → Apart (m ∷ p) source
    → Rooted (m ∷ p) fs
    → Free (m ∷ p) fs
    → There source fs names
    → finished (copy_results names source (m ∷ p) fs).0 ≡ true
unfolding copy_results
copy_results-finished source m p names fs a r f t =
    let h : finished (empty_path (m ∷ p) fs).0 ≡ true = empty_path-finished (m ∷ p) fs f in
    let es : Files = (empty_path (m ∷ p) fs).1 in
    finished-continue (λ x. copy_all source (m ∷ p) names) (empty_path (m ∷ p) fs) h
      (λ x.
        copy_all-finished source (m ∷ p) names es a
          (Emptied-Plain (m ∷ p) es (empty_path-Emptied m p fs r h))
          (There-same source fs es names
            (λ n.
              empty_path-Keeps source (m ∷ p) fs a (source ++ (n ∷ []))
                (beneath-append source (n ∷ [])))
            t))

-- An attempt that is through, by its files.
through : (o : Outcome Unit × Files) → finished o.0 ≡ true → o ≡ (done tt, o.1)
through (done x, fs) h = refl
through (raised e, fs) h = absurd (ground arith)

passed : (b : Location) (fs : Files) → log_met b fs ≡ true → check_timing b fs ≡ (done tt, fs)
passed b fs h =
    let (o, s) = check_timing-log b fs in
    through (check_timing b fs) (o ∙ h) ∙ ap (λ gs. (done tt, gs)) s

-- A folder on the way to one that is apart from a third is not beneath that.
on_the_way : (b r q : Location) → Apart b r → beneath q r ≡ true → beneath b q ≡ false
on_the_way b r q (h, k) t = elim (Bool-cases (beneath b q)) [
  | inl u ↦ absurd (ground (arith, beneath_trans b q r u t))
  | inr f ↦ f
]

other_name : same_name csr_csv bitstream_bin ≡ false
unfolding same_name
other_name = refl

file-is_file : (q : Location) (c : List ℕ) (fs : Files) → fs q ≡ some (file c) → is_file q fs ≡ true
file-is_file q c fs e = rw (e, is_file) refl

module _ (soc_build : Location → Attempt Unit) (csr_text : List ℕ) (b : Location) where
  -- What the build of the system on chip does in an emptied build folder: it comes to its end, and
  -- leaves a bitstream and a log that says that the timing is met, and no folder in the place of the
  -- addresses.
  abbrev pub Succeeds : Files → Type 0
  Succeeds gs =
      let r : Outcome Unit × Files = soc_build b gs in
      (finished r.0 ≡ true)
      × (log_met b r.1 ≡ true)
      × Writable b csr_csv r.1
      × (is_file (b ++ (bitstream_bin ∷ [])) r.1 ≡ true)

  written : Files → Files
  written gs = put (b ++ (csr_csv ∷ [])) (file csr_text) (soc_build b gs).1

  module _ (m : Name) (p : Location) where
    before-written :
        (gs : Files) → Succeeds gs → before soc_build csr_text b (m ∷ p) gs ≡ (done tt, written gs)
    unfolding continue written
    before-written gs (h, l, w, i) =
        ap (λ o. continue (λ x. write_file b csr_csv csr_text) (continue (λ x. check_timing b) o))
          (through (soc_build b gs) h)
        ∙ ap (continue (λ x. write_file b csr_csv csr_text)) (passed b (soc_build b gs).1 l)
        ∙ write_file-Writable b csr_csv csr_text (soc_build b gs).1 w

    written-off :
        (gs : Files) (q : Location)
        → Within b (soc_build b)
        → beneath b q ≡ false
        → written gs q ≡ gs q
    unfolding written
    written-off gs q w h =
        put-off (b ++ (csr_csv ∷ [])) (file csr_text) (soc_build b gs).1 q (outside b q csr_csv h)
        ∙ w gs q h

    written-There : (gs : Files) → Succeeds gs → There b (written gs) (bitstream_bin ∷ csr_csv ∷ [])
    unfolding written
    written-There gs (h, l, w, i) =
        let ss : Files = (soc_build b gs).1 in
        (
          is_file-eq (b ++ (bitstream_bin ∷ [])) (put (b ++ (csr_csv ∷ [])) (file csr_text) ss) ss
              (sym (
                put-off (b ++ (csr_csv ∷ [])) (file csr_text) ss (b ++ (bitstream_bin ∷ []))
                  (last-ne b csr_csv bitstream_bin other_name)))
              i,
          (
            file-is_file (b ++ (csr_csv ∷ [])) csr_text
                (put (b ++ (csr_csv ∷ [])) (file csr_text) ss)
                (put-at (b ++ (csr_csv ∷ [])) (file csr_text) ss (b ++ (csr_csv ∷ []))
                  (same_path_refl (b ++ (csr_csv ∷ [])))),
            tt,
          ),
        )

    -- A build comes to its end: if no file is in the place of a folder on the way to the build
    -- folder or the result folder, neither of which is beneath the other, if without a result folder
    -- there was nothing beneath it, and if the build of the system on chip succeeds in the emptied
    -- build folder and changes nothing outside of it.
    pub build-finished :
        (fs : Files)
        → Apart b (m ∷ p)
        → Within b (soc_build b)
        → Rooted (m ∷ p) fs
        → Free b fs
        → Free (m ∷ p) fs
        → Succeeds (empty_path b fs).1
        → finished (build (stemlab_builder soc_build csr_text) b (m ∷ p) fs).0 ≡ true
    unfolding build build_stemlab
    build-finished fs a w r fb fr s =
        let gs : Files = (empty_path b fs).1 in
        let e : before soc_build csr_text b (m ∷ p) gs ≡ (done tt, written gs) =
          before-written gs s in
        let kept : Keeps (m ∷ p) fs (written gs) = λ q h.
          written-off gs q w (Apart-beneath (m ∷ p) b q (a.1, a.0) h)
          ∙ empty_path-Keeps (m ∷ p) b fs a q h in
        let free : Free (m ∷ p) (written gs) = λ q h.
          subst (λ o. (o ≡ none) ⊎ (o ≡ some directory))
            (sym (written-off gs q w (on_the_way b (m ∷ p) q a h)))
            (empty_path-Free b (m ∷ p) fs fr q h) in
        finished-continue (λ x. build_stemlab soc_build csr_text b (m ∷ p)) (empty_path b fs)
          (empty_path-finished b fs fb)
          (λ x.
            subst
              (λ o.
                finished (continue (λ y. copy_results (bitstream_bin ∷ csr_csv ∷ []) b (m ∷ p)) o).0
                ≡ true)
              (sym e)
              (finished-continue (λ y. copy_results (bitstream_bin ∷ csr_csv ∷ []) b (m ∷ p))
                (done tt, written gs) refl
                (λ y.
                  copy_results-finished b m p (bitstream_bin ∷ csr_csv ∷ []) (written gs) (a.1, a.0)
                    (Rooted-Keeps (m ∷ p) fs (written gs) kept r) free (written-There gs s))))

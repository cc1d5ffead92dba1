-- ===== src/Builder/Results.antt =====
-- What a build leaves in the folders, and what a missed timing does not touch.
use pypga.Base.{◌≡◌, refl, true, false, List, [], ◌∷◌, ◌++◌, ap, sym, ◌∙◌, some, ℕ, arith}
use pypga.Instance.{Name}
use pypga.Files.{
  Location, file, Files, Outcome, done, raised, Attempt, continue, empty_path, write_file,
}
use pypga.Files.Paths.{Apart, beneath-append, beneath_refl}
use pypga.Files.Effects.{finished, Keeps, Keeps-trans, empty_path-Keeps}
use pypga.Files.Emptied.{continue-finished, continue-cases, Rooted}
use pypga.Builder.{
  build, check_timing, copy_results, build_stemlab, stemlab_builder, csr_csv, bitstream_bin,
  vivado_log,
}
use pypga.Builder.Copied.{Exactly, copy_results-Exactly, copy_results-Keeps, is_file-eq}
use pypga.Builder.Steps.{
  Within, Ready, before, before-Ready, Within-Keeps, check_timing-log, log_met, log_met-eq,
}

-- The results of a build: those two files, as they are in the build folder.
abbrev pub Built : List ℕ → Location → Location → Files → Type 0
Built csr_text b r gs =
    (gs (b ++ (csr_csv ∷ [])) ≡ some (file csr_text))
    × (log_met b gs ≡ true)
    × Exactly b r (bitstream_bin ∷ csr_csv ∷ []) gs gs

Exactly-later :
    (b r : Location) (names : List Name) (fs gs : Files)
    → Keeps b fs gs
    → Exactly b r names fs gs
    → Exactly b r names gs gs
Exactly-later b r names fs gs k (d, c, o) =
    let same : (n : Name) → gs (b ++ (n ∷ [])) ≡ fs (b ++ (n ∷ [])) =
      λ n. k (b ++ (n ∷ [])) (beneath-append b (n ∷ [])) in
    (
      d,
      λ n h. ((c n h).0 ∙ sym (same n), is_file-eq (b ++ (n ∷ [])) gs fs (sym (same n)) (c n h).1),
      o,
    )

pub Rooted-Keeps : (r : Location) (fs gs : Files) → Keeps r fs gs → Rooted r fs → Rooted r gs
Rooted-Keeps r fs gs k t e q b = k q b ∙ t (sym (k r (beneath_refl r)) ∙ e) q b

module _ (soc_build : Location → Attempt Unit) (csr_text : List ℕ) (b : Location) (m : Name)
    (p : Location) where
  copied-Built :
      (fs gs : Files)
      → Apart (m ∷ p) b
      → Rooted (m ∷ p) fs
      → Ready soc_build csr_text b (m ∷ p) fs gs
      → finished (copy_results (bitstream_bin ∷ csr_csv ∷ []) b (m ∷ p) gs).0 ≡ true
      → Built csr_text b (m ∷ p) (copy_results (bitstream_bin ∷ csr_csv ∷ []) b (m ∷ p) gs).1
  copied-Built fs gs a t (c, l, k) h =
      let names : List Name = bitstream_bin ∷ csr_csv ∷ [] in
      let hs : Files = (copy_results names b (m ∷ p) gs).1 in
      let kept : Keeps b gs hs = copy_results-Keeps b b (m ∷ p) names gs a in
      (
        kept (b ++ (csr_csv ∷ [])) (beneath-append b (csr_csv ∷ [])) ∙ c,
        log_met-eq b gs hs (kept (b ++ (vivado_log ∷ [])) (beneath-append b (vivado_log ∷ []))) ∙ l,
        Exactly-later b (m ∷ p) names gs hs kept
            (copy_results-Exactly b m p names gs a (Rooted-Keeps (m ∷ p) fs gs k t) h),
      )

  steps-Built :
      (fs gs : Files)
      → Apart b (m ∷ p)
      → Within b (soc_build b)
      → Rooted (m ∷ p) gs
      → finished (build_stemlab soc_build csr_text b (m ∷ p) gs).0 ≡ true
      → Built csr_text b (m ∷ p) (build_stemlab soc_build csr_text b (m ∷ p) gs).1
  unfolding build_stemlab
  steps-Built fs gs a w t =
      continue-finished (Built csr_text b (m ∷ p))
        (λ x. copy_results (bitstream_bin ∷ csr_csv ∷ []) b (m ∷ p))
        (before soc_build csr_text b (m ∷ p) gs)
        (λ x e h.
          copied-Built gs (before soc_build csr_text b (m ∷ p) gs).1 (a.1, a.0) t
            (before-Ready soc_build csr_text b (m ∷ p) w a gs (rw e refl)) h)

  -- When a build is through, the timing was met and the result folder holds the bitstream and the
  -- addresses of the registers, as they are in the build folder, and nothing else. Here neither
  -- folder is beneath the other one, the build of the system on chip changes nothing outside the
  -- build folder, and without a result folder there was nothing beneath it.
  pub build-Built :
      (fs : Files)
      → Apart b (m ∷ p)
      → Within b (soc_build b)
      → Rooted (m ∷ p) fs
      → finished (build (stemlab_builder soc_build csr_text) b (m ∷ p) fs).0 ≡ true
      → Built csr_text b (m ∷ p) (build (stemlab_builder soc_build csr_text) b (m ∷ p) fs).1
  unfolding build
  build-Built fs a w t =
      continue-finished (Built csr_text b (m ∷ p)) (λ x. build_stemlab soc_build csr_text b (m ∷ p))
        (empty_path b fs)
        (λ x e.
          steps-Built fs (empty_path b fs).1 a w
            (Rooted-Keeps (m ∷ p) fs (empty_path b fs).1 (empty_path-Keeps (m ∷ p) b fs a) t))

-- A failure that has not touched a folder.
abbrev Failed : Location → Files → Outcome Unit × Files → Type 0
Failed r fs o = (finished o.0 ≡ false) × Keeps r fs o.1

Failed-continue :
    (r : Location) (fs : Files) (f : Unit → Attempt Unit) (o : Outcome Unit × Files)
    → Failed r fs o
    → Failed r fs (continue f o)
unfolding continue
Failed-continue r fs f (done u, gs) (h, k) = absurd (ground arith)
Failed-continue r fs f (raised e, gs) (h, k) = (refl, k)

module _ (soc_build : Location → Attempt Unit) (csr_text : List ℕ) (b r : Location) where
  check-Failed :
      (fs gs : Files)
      → Apart b r
      → Within b (soc_build b)
      → Keeps r fs gs
      → log_met b (soc_build b gs).1 ≡ false
      → Failed r fs (continue (λ x. check_timing b) (soc_build b gs))
  check-Failed fs gs a w k l =
      let ss : Files = (soc_build b gs).1 in
      let kept : Keeps r fs ss = Keeps-trans r fs gs ss k (Within-Keeps b r (soc_build b) gs w a) in
      continue-cases (Failed r fs) (λ x. check_timing b) (soc_build b gs) (λ e h. (refl, kept))
        (λ x h. let (o, s) = check_timing-log b ss in (o ∙ l, λ q t. ap (λ f. f q) s ∙ kept q t))

  -- A build whose log does not say that the timing is met fails, and leaves the results of earlier
  -- builds as they were. Here neither folder is beneath the other one, and the build of the system
  -- on chip changes nothing outside the build folder.
  pub build-missed :
      (fs : Files)
      → Apart b r
      → Within b (soc_build b)
      → log_met b (soc_build b (empty_path b fs).1).1 ≡ false
      → (finished (build (stemlab_builder soc_build csr_text) b r fs).0 ≡ false)
        × Keeps r fs (build (stemlab_builder soc_build csr_text) b r fs).1
  unfolding build build_stemlab
  build-missed fs a w l =
      let gs : Files = (empty_path b fs).1 in
      let kept : Keeps r fs gs = empty_path-Keeps r b fs a in
      continue-cases (Failed r fs) (λ x. build_stemlab soc_build csr_text b r) (empty_path b fs)
        (λ e h. (refl, kept))
        (λ x h.
          Failed-continue r fs (λ u. copy_results (bitstream_bin ∷ csr_csv ∷ []) b r)
            (before soc_build csr_text b r gs)
            (Failed-continue r fs (λ u. write_file b csr_csv csr_text)
              (continue (λ u. check_timing b) (soc_build b gs)) (check-Failed fs gs a w kept l)))

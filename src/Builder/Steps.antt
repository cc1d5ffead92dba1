-- ===== src/Builder/Steps.antt =====
-- A build of the board's builder, from the empty build folder to the results.
use pypga.Base.{
  ◌≡◌, refl, Bool, true, false, Bool-cases, inl, inr, if◌then◌else◌, List, [], ◌∷◌, ◌++◌, ap, sym,
  ◌∙◌, none, some, ℕ,
}
use pypga.Files.{
  Location, directory, file, Files, Attempt, beneath, continue, ◌>>◌, read_file, write_file, pure,
  raise, runtime_error,
}
use pypga.Csr.{same_name}
use pypga.Files.Paths.{Apart, Apart-beneath, last-ne}
use pypga.Files.Effects.{
  finished, Keeps, Keeps-trans, write_file-Keeps, Apart-below, continue-Keeps, at-cases,
  write_file-at, write_file-off,
}
use pypga.Files.Emptied.{continue-finished}
use pypga.Builder.{check_timing, csr_csv, vivado_log}
use pypga.Timing.{timing_met}

-- An attempt that changes nothing outside a folder.
abbrev pub Within : Location → Attempt Unit → Type 0
Within p m = (fs : Files) (q : Location) → beneath p q ≡ false → (m fs).1 q ≡ fs q

pub Within-Keeps :
    (p other : Location) (m : Attempt Unit) (fs : Files)
    → Within p m
    → Apart p other
    → Keeps other fs (m fs).1
Within-Keeps p other m fs w (a, b) q h = w fs q (Apart-beneath other p q (b, a) h)

-- Whether there is a log, and in it the line that says that the timing is met.
abbrev pub log_met : Location → Files → Bool
log_met b fs = elim (fs (b ++ (vivado_log ∷ []))) [
  | none ↦ false
  | some n ↦ elim n [ directory ↦ false | file log ↦ timing_met log ]
]

pub log_met-eq :
    (b : Location) (fs gs : Files)
    → gs (b ++ (vivado_log ∷ [])) ≡ fs (b ++ (vivado_log ∷ []))
    → log_met b gs ≡ log_met b fs
log_met-eq b fs gs e = rw (e, log_met) refl

-- The check of a text.
checked : List ℕ → Attempt Unit
unfolding timing_met
checked log = if timing_met log then pure tt else raise runtime_error

checked-log :
    (log : List ℕ) (fs : Files)
    → (finished (checked log fs).0 ≡ timing_met log) × ((checked log fs).1 ≡ fs)
unfolding checked
checked-log log fs = elim (Bool-cases (timing_met log)) [
  | inl t ↦ rw t (refl, refl)
  | inr f ↦ rw f (refl, refl)
]

-- The check only reads, and reads only the log.
pub check_timing-log :
    (b : Location) (fs : Files)
    → (finished (check_timing b fs).0 ≡ log_met b fs) × ((check_timing b fs).1 ≡ fs)
unfolding check_timing read_file continue checked
check_timing-log b fs =
    at-cases fs (b ++ (vivado_log ∷ [])) (λ e. rw (e, read_file, log_met) (refl, refl))
      (λ e. rw (e, read_file, log_met) (refl, refl))
      (λ c e. rw (e, read_file, log_met) (checked-log c fs))

other_name : same_name csr_csv vivado_log ≡ false
unfolding same_name
other_name = refl

module _ (soc_build : Location → Attempt Unit) (csr_text : List ℕ) (b r : Location) where
  -- What is there before the results are copied.
  abbrev pub Ready : Files → Files → Type 0
  Ready fs gs =
      (gs (b ++ (csr_csv ∷ [])) ≡ some (file csr_text)) × (log_met b gs ≡ true) × Keeps r fs gs

  -- The steps before that.
  abbrev pub before : Attempt Unit
  before = soc_build b >> check_timing b >> write_file b csr_csv csr_text

  module _ (w : Within b (soc_build b)) (a : Apart b r) where
    pub checked-Keeps :
        (fs : Files) → Keeps r fs (continue (λ x. check_timing b) (soc_build b fs)).1
    checked-Keeps fs =
        continue-Keeps r (λ x. check_timing b) fs (soc_build b fs)
          (Within-Keeps b r (soc_build b) fs w a)
          (λ x gs q h. ap (λ f. f q) (check_timing-log b gs).1)

    pub before-Keeps : (fs : Files) → Keeps r fs (before fs).1
    before-Keeps fs =
        continue-Keeps r (λ x. write_file b csr_csv csr_text) fs
          (continue (λ x. check_timing b) (soc_build b fs)) (checked-Keeps fs)
          (λ x gs. write_file-Keeps r b csr_csv csr_text gs (Apart-below r b (csr_csv ∷ []) a))

    checked-met :
        (fs : Files)
        → finished (continue (λ x. check_timing b) (soc_build b fs)).0 ≡ true
        → log_met b (continue (λ x. check_timing b) (soc_build b fs)).1 ≡ true
    checked-met fs =
        continue-finished (λ gs. log_met b gs ≡ true) (λ x. check_timing b) (soc_build b fs)
          (λ x e h.
            let gs : Files = (soc_build b fs).1 in
            let (o, s) = check_timing-log b gs in ap (log_met b) s ∙ sym o ∙ h)

    pub before-Ready : (fs : Files) → finished (before fs).0 ≡ true → Ready fs (before fs).1
    before-Ready fs =
        continue-finished (Ready fs) (λ x. write_file b csr_csv csr_text)
          (continue (λ x. check_timing b) (soc_build b fs))
          (λ x e h.
            let gs : Files = (continue (λ x. check_timing b) (soc_build b fs)).1 in
            (
              write_file-at b csr_csv csr_text gs h,
              log_met-eq b gs (write_file b csr_csv csr_text gs).1 (
                    write_file-off b csr_csv csr_text gs (b ++ (vivado_log ∷ []))
                      (last-ne b csr_csv vivado_log other_name))
                  ∙ checked-met fs (rw e refl),
              Keeps-trans r fs gs (write_file b csr_csv csr_text gs).1 (checked-Keeps fs)
                  (write_file-Keeps r b csr_csv csr_text gs (Apart-below r b (csr_csv ∷ []) a)),
            ))

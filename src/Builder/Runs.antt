-- ===== src/Builder/Runs.antt =====
-- What `TopModule.run` can rely on, and what a second run does.
use pypga.Base.{
  ◌≡◌, refl, true, false, Bool-cases, ◌⊎◌, inl, inr, ◌||◌, not, List, [], ◌∷◌, ◌++◌, sym, ◌∙◌, some,
  ℕ, arith,
}
use mathlib.Core.Path.{subst}
use pypga.Instance.{Name}
use pypga.Csr.{lookup}
use pypga.Files.{Location, directory, Files, Outcome, done, Attempt, continue, is_dir}
use pypga.Files.Paths.{Apart, Apart-append}
use pypga.Files.Effects.{finished, at-cases}
use pypga.Files.Emptied.{continue-finished, Rooted}
use pypga.Builder.{
  Settings, Registry, Design, Arguments, build, stemlab_builder, run, interface, get_build_path,
  run_builder, BuilderClass, get_result_path,
}
use pypga.Builder.Steps.{Within}
use pypga.Builder.Results.{Built, build-Built}

run-found :
    (registry : Registry) (s : Settings) (d : Design) (a : Arguments) (c : BuilderClass)
    → lookup a.board registry ≡ some c
    → run registry s d a ≡ run_builder c s d a
unfolding run
run-found registry s d a c l = rw (l, run) refl

-- With a result folder and without force, no file is touched.
existing :
    (c : BuilderClass) (s : Settings) (d : Design) (a : Arguments) (fs : Files)
    → is_dir (get_result_path s a.board d) fs ≡ true
    → a.forcebuild ≡ false
    → run_builder c s d a fs ≡ interface a (get_result_path s a.board d) fs
unfolding run_builder
existing c s d a fs r f = rw (f, r) refl

interface-same : (a : Arguments) (r : Location) (fs : Files) → (interface a r fs).1 ≡ fs
interface-same a r fs = elim (Bool-cases a.host_given) [ inl t ↦ rw t refl | inr f ↦ rw f refl ]

interface-host :
    (a : Arguments) (r : Location) (fs : Files)
    → finished (interface a r fs).0 ≡ true
    → a.host_given ≡ true
interface-host a r fs = elim (Bool-cases a.host_given) [
  | inl t ↦ λ h. t
  | inr f ↦ rw f (λ h. absurd (ground arith))
]

interface-given :
    (a : Arguments) (r : Location) (fs : Files)
    → a.host_given ≡ true
    → interface a r fs ≡ (done r, fs)
interface-given a r fs t = rw t refl

run_builder-host :
    (c : BuilderClass) (s : Settings) (d : Design) (a : Arguments) (fs : Files)
    → finished (run_builder c s d a fs).0 ≡ true
    → a.host_given ≡ true
unfolding run_builder
run_builder-host c s d a fs =
    let b : Location = get_build_path s a.board d in
    let r : Location = get_result_path s a.board d in
    elim (Bool-cases (a.forcebuild || not (is_dir r fs))) [
      | inl needed ↦ elim (Bool-cases (a.autobuild || a.forcebuild)) [
        | inl allowed ↦
            rw (needed, allowed)
              (continue-finished (λ gs. a.host_given ≡ true) (λ x. interface a r) (build c b r fs)
                (λ x e h. interface-host a r (build c b r fs).1 h))
        | inr refused ↦ rw (needed, refused) (λ h. absurd (ground arith))
      ]
      | inr there ↦ rw there (interface-host a r fs)
    ]

directory-is_dir : (p : Location) (fs : Files) → fs p ≡ some directory → is_dir p fs ≡ true
unfolding is_dir
directory-is_dir p fs e = rw (e, is_dir) refl

is_dir-directory : (p : Location) (fs : Files) → is_dir p fs ≡ true → fs p ≡ some directory
unfolding is_dir
is_dir-directory p fs =
    at-cases fs p (λ e. rw (e, is_dir) (λ h. absurd (ground arith))) (λ e h. e)
      (λ c e. rw (e, is_dir) (λ h. absurd (ground arith)))

module _ (soc_build : Location → Attempt Unit) (csr_text : List ℕ) where
  -- `build-Built` for a result folder below another one.
  below-Built :
      (b base : Location) (n : Name) (ns : List Name) (fs : Files)
      → Apart b (base ++ (n ∷ ns))
      → Within b (soc_build b)
      → Rooted (base ++ (n ∷ ns)) fs
      → finished (build (stemlab_builder soc_build csr_text) b (base ++ (n ∷ ns)) fs).0 ≡ true
      → Built csr_text b
          (base ++ (n ∷ ns))
          (build (stemlab_builder soc_build csr_text) b (base ++ (n ∷ ns)) fs).1
  below-Built b [] n ns fs = build-Built soc_build csr_text b n ns fs
  below-Built b (m ∷ base) n ns fs = build-Built soc_build csr_text b m (base ++ (n ∷ ns)) fs

  module _ (s : Settings) (d : Design) (a : Arguments) where
    -- What `run` leaves: the results from before, or those of its build.
    abbrev pub Left : Files → Files → Type 0
    Left fs gs =
        (gs (get_result_path s a.board d) ≡ some directory)
        × (((a.forcebuild ≡ false) × (gs ≡ fs))
            ⊎ Built csr_text (get_build_path s a.board d) (get_result_path s a.board d) gs)

    build-Left :
        (fs : Files)
        → Apart s.build_path s.result_path
        → Within (get_build_path s a.board d) (soc_build (get_build_path s a.board d))
        → Rooted (get_result_path s a.board d) fs
        → finished
            (build
              (stemlab_builder soc_build csr_text)
              (get_build_path s a.board d)
              (get_result_path s a.board d)
              fs).0
          ≡ true
        → Left fs
            (build
              (stemlab_builder soc_build csr_text)
              (get_build_path s a.board d)
              (get_result_path s a.board d)
              fs).1
    build-Left fs p w t h =
        let l : Built csr_text (get_build_path s a.board d) (get_result_path s a.board d)
            (build (stemlab_builder soc_build csr_text) (get_build_path s a.board d)
              (get_result_path s a.board d) fs).1 =
          below-Built (get_build_path s a.board d) s.result_path a.board
            (d.module_name ∷ d.hash ∷ []) fs
            (Apart-append s.build_path s.result_path (a.board ∷ d.module_name ∷ [])
              (a.board ∷ d.module_name ∷ d.hash ∷ []) p)
            w t h in
        (l.2.0, inr l)

    -- With the build, and with what was there.
    built-Left :
        (fs : Files)
        → Apart s.build_path s.result_path
        → Within (get_build_path s a.board d) (soc_build (get_build_path s a.board d))
        → Rooted (get_result_path s a.board d) fs
        → finished
            (continue
              (λ x. interface a (get_result_path s a.board d))
              (build
                (stemlab_builder soc_build csr_text)
                (get_build_path s a.board d)
                (get_result_path s a.board d)
                fs)).0
          ≡ true
        → Left fs
            (continue
              (λ x. interface a (get_result_path s a.board d))
              (build
                (stemlab_builder soc_build csr_text)
                (get_build_path s a.board d)
                (get_result_path s a.board d)
                fs)).1
    built-Left fs p w t =
        let r : Outcome Unit × Files =
          build (stemlab_builder soc_build csr_text) (get_build_path s a.board d)
            (get_result_path s a.board d) fs in
        continue-finished (Left fs) (λ x. interface a (get_result_path s a.board d)) r
          (λ x e h.
            subst (Left fs) (sym (interface-same a (get_result_path s a.board d) r.1))
              (build-Left fs p w t (rw e refl)))

    kept-Left :
        (fs : Files)
        → a.forcebuild ≡ false
        → is_dir (get_result_path s a.board d) fs ≡ true
        → Left fs (interface a (get_result_path s a.board d) fs).1
    kept-Left fs f r =
        subst (Left fs) (sym (interface-same a (get_result_path s a.board d) fs))
          (is_dir-directory (get_result_path s a.board d) fs r, inl (f, refl))

    run_builder-Left :
        (fs : Files)
        → Apart s.build_path s.result_path
        → Within (get_build_path s a.board d) (soc_build (get_build_path s a.board d))
        → Rooted (get_result_path s a.board d) fs
        → finished (run_builder (stemlab_builder soc_build csr_text) s d a fs).0 ≡ true
        → Left fs (run_builder (stemlab_builder soc_build csr_text) s d a fs).1
    unfolding run_builder
    run_builder-Left fs p w t =
        elim (Bool-cases (a.forcebuild || not (is_dir (get_result_path s a.board d) fs))) [
          | inl needed ↦ elim (Bool-cases (a.autobuild || a.forcebuild)) [
            | inl allowed ↦ rw (needed, allowed) (built-Left fs p w t)
            | inr refused ↦ rw (needed, refused) (λ h. absurd (ground arith))
          ]
          | inr there ↦ rw there (λ h. kept-Left fs (ground arith) (ground arith))
        ]

    -- When a run of a design on the board comes to its interface, its result folder is there. Either
    -- it was there before, no build was forced and no file has changed, or it holds what a build
    -- leaves that met its timing. The same run once more, without force, gives the same path and
    -- changes no file. Here the folders of the settings are not beneath each other, the build of
    -- the system on chip changes nothing outside the build folder, and without a result folder
    -- there was nothing beneath it.
    pub run-again :
        (registry : Registry) (fs : Files)
        → lookup a.board registry ≡ some (stemlab_builder soc_build csr_text)
        → Apart s.build_path s.result_path
        → Within (get_build_path s a.board d) (soc_build (get_build_path s a.board d))
        → Rooted (get_result_path s a.board d) fs
        → finished (run registry s d a fs).0 ≡ true
        → let gs : Files = (run registry s d a fs).1 in
          Left fs gs
          × (run registry s d (record a { forcebuild = false }) gs
              ≡ (done (get_result_path s a.board d), gs))
    run-again registry fs l p w t =
        let c : BuilderClass = stemlab_builder soc_build csr_text in
        rw
          (
            run-found registry s d a c l,
            run-found registry s d (record a { forcebuild = false }) c l,
          )
          (λ h.
            let left : Left fs (run_builder c s d a fs).1 = run_builder-Left fs p w t h in
            (
              left,
              existing c s d (record a { forcebuild = false }) (run_builder c s d a fs).1
                    (directory-is_dir (get_result_path s a.board d) (run_builder c s d a fs).1
                      left.0)
                    refl
                  ∙ interface-given (record a { forcebuild = false }) (get_result_path s a.board d)
                      (run_builder c s d a fs).1 (run_builder-host c s d a fs h),
            ))

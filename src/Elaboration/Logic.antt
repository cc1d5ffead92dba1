-- ===== src/Elaboration/Logic.antt =====
-- With which arguments a logic function runs, and when a design is elaborated to its end.
use pypga.Base.{
  ◌≡◌, ◌⊎◌, refl, ap, ◌∙◌, ℕ, Bool, true, false, Bool-cases, inl, inr, ◌||◌, not, ◌==◌, All, ◌++◌,
  if◌then◌else◌, List, [], ◌∷◌, Option, none, some, arith,
}
use pypga.Base.Options.{◌>>=◌}
use pypga.Instance.{Name}
use pypga.Elaboration.{
  is_number, Register, register_commands, Design, design, Submodules, no_submodules, submodule,
  MigenModule, migen_module, no_children, registers_commands, add_submodule, Given,
  platform_and_soc, platform_only, nothing_given, Reply, returned, raised_type_error, raised_other,
  Call, call_last, call_second, call_first, add_logic_function, add_logic, elaborate,
  add_submodules,
}

-- Logic functions that fail only at arguments that they do not take, and there before they do
-- anything.
abbrev pub Takes : (ℕ → Given → Bool) → Call → Type 0
Takes takes call =
    (k : ℕ) (g : Given) (m : MigenModule)
    → ((takes k g ≡ true) × ((call k g m).0 ≡ returned))
      ⊎ ((takes k g ≡ false) × (call k g m ≡ (raised_type_error, m)))

-- The module behind the call with the most arguments that are taken.
abbrev pub widest : (ℕ → Given → Bool) → Call → ℕ → MigenModule → Option MigenModule
widest takes call k m =
    if takes k platform_and_soc
    then some (call k platform_and_soc m).1
    else (if takes k platform_only
        then some (call k platform_only m).1
        else (if takes k nothing_given then some (call k nothing_given m).1 else none))

call_last-returned : (r : Reply × MigenModule) → r.0 ≡ returned → call_last r ≡ some r.1
unfolding call_last
call_last-returned (returned, m) e = refl
call_last-returned (raised_type_error, m) e = absurd (ground arith)
call_last-returned (raised_other, m) e = absurd (ground arith)

call_second-returned :
    (call : Call) (k : ℕ) (r : Reply × MigenModule)
    → r.0 ≡ returned
    → call_second call k r ≡ some r.1
unfolding call_second
call_second-returned call k (returned, m) e = refl
call_second-returned call k (raised_type_error, m) e = absurd (ground arith)
call_second-returned call k (raised_other, m) e = absurd (ground arith)

call_first-returned :
    (call : Call) (k : ℕ) (r : Reply × MigenModule)
    → r.0 ≡ returned
    → call_first call k r ≡ some r.1
unfolding call_first
call_first-returned call k (returned, m) e = refl
call_first-returned call k (raised_type_error, m) e = absurd (ground arith)
call_first-returned call k (raised_other, m) e = absurd (ground arith)

module _ (takes : ℕ → Given → Bool) (call : Call) (h : Takes takes call) where
  -- A logic function that fails only at arguments that it does not take, and there before it does
  -- anything, runs once: with platform and SoC if it takes them, otherwise with the platform,
  -- otherwise without arguments. If it takes none of these, the elaboration fails.
  pub add_logic_function-widest :
      (k : ℕ) (m : MigenModule) → add_logic_function call k m ≡ widest takes call k m
  unfolding add_logic_function call_first call_second call_last
  add_logic_function-widest k m = elim (h k platform_and_soc m) [
    | inl (t, e) ↦ rw t (call_first-returned call k (call k platform_and_soc m) e)
    | inr (f, e) ↦
        rw (f, e)
          (elim (h k platform_only m) [
            | inl (t, o) ↦ rw t (call_second-returned call k (call k platform_only m) o)
            | inr (g, o) ↦
                rw (g, o)
                  (elim (h k nothing_given m) [
                    | inl (t, n) ↦ rw t (call_last-returned (call k nothing_given m) n)
                    | inr (l, n) ↦ rw (l, n) refl
                  ])
          ])
  ]

abbrev pub is_some : {A : Type 0} → Option A → Bool
is_some none = false
is_some (some m) = true

bind-is_some :
    {A B : Type 0} (o : Option A) (f : A → Option B)
    → is_some o ≡ true
    → ((m : A) → is_some (f m) ≡ true)
    → is_some (o >>= f) ≡ true
bind-is_some none f h k = absurd (ground arith)
bind-is_some (some m) f h k = k m

-- The default of an array is no integer, if its CSR is made, and that of a trigger or of a register
-- of one value is one; a register in the RAM has any.
abbrev pub default_fits : Bool → Register → Bool
default_fits omit_csr r =
    if r.trigger
    then is_number r.default
    else (if r.in_ram
        then true
        else (if r.depth == 1 then is_number r.default else omit_csr || not (is_number r.default)))

-- So it is in all modules of a design.
abbrev mutual
  pub DefaultsFit : Bool → Design → Type 0
  DefaultsFit omit_csr (design rs ss ks) =
      All (λ r. default_fits omit_csr r.1 ≡ true) rs × DefaultsFitBelow omit_csr ss

  pub DefaultsFitBelow : Bool → Submodules → Type 0
  DefaultsFitBelow omit_csr no_submodules = Unit
  DefaultsFitBelow omit_csr (submodule n d ss) =
      DefaultsFit omit_csr d × DefaultsFitBelow omit_csr ss

register_commands-is_some :
    (omit_csr : Bool) (n : Name) (r : Register)
    → default_fits omit_csr r ≡ true
    → is_some (register_commands omit_csr n r) ≡ true
unfolding register_commands
register_commands-is_some omit_csr n r h = elim (Bool-cases r.trigger) [
  | inl t ↦ rw t refl
  | inr f ↦ elim (Bool-cases r.in_ram) [
    | inl u ↦ rw (f, u) refl
    | inr g ↦ elim (Bool-cases omit_csr) [
      | inl o ↦ rw (f, g, o) refl
      | inr w ↦ elim (Bool-cases (r.depth == 1)) [
        | inl d ↦ rw (f, g, w, d) refl
        | inr a ↦
            let made : is_number r.default ≡ false = ground arith in rw (f, g, w, a, made) refl
      ]
    ]
  ]
]

registers_commands-is_some :
    (omit_csr : Bool) (rs : List (Name × Register))
    → All (λ r. default_fits omit_csr r.1 ≡ true) rs
    → is_some (registers_commands omit_csr rs) ≡ true
unfolding registers_commands
registers_commands-is_some omit_csr [] h = refl
registers_commands-is_some omit_csr (r ∷ rs) (h, hs) =
    bind-is_some (register_commands omit_csr r.0 r.1)
      (λ cs. registers_commands omit_csr rs >>= λ ds. some (cs ++ ds))
      (register_commands-is_some omit_csr r.0 r.1 h)
      (λ cs.
        bind-is_some (registers_commands omit_csr rs) (λ ds. some (cs ++ ds))
          (registers_commands-is_some omit_csr rs hs) (λ ds. refl))

-- A logic function takes some of the arguments that are tried.
abbrev pub TakesAny : (ℕ → Given → Bool) → Type 0
TakesAny takes =
    (k : ℕ) → takes k platform_and_soc || (takes k platform_only || takes k nothing_given) ≡ true

module _ (takes : ℕ → Given → Bool) (call : Call) (h : Takes takes call)
    (any : TakesAny takes) where
  widest-is_some : (k : ℕ) (m : MigenModule) → is_some (widest takes call k m) ≡ true
  widest-is_some k m = elim (Bool-cases (takes k platform_and_soc)) [
    | inl t ↦ rw t refl
    | inr f ↦ elim (Bool-cases (takes k platform_only)) [
      | inl t ↦ rw (f, t) refl
      | inr g ↦ let n : takes k nothing_given ≡ true = ground (arith, any k) in rw (f, g, n) refl
    ]
  ]

  add_logic-is_some : (ks : List ℕ) (m : MigenModule) → is_some (add_logic call ks m) ≡ true
  unfolding add_logic
  add_logic-is_some [] m = refl
  add_logic-is_some (k ∷ ks) m =
      bind-is_some (add_logic_function call k m) (λ n. add_logic call ks n)
        (ap is_some (add_logic_function-widest takes call h k m) ∙ widest-is_some k m)
        (λ n. add_logic-is_some ks n)

  mutual
    unfolding elaborate

    elaborated-is_some :
        (omit_csr : Bool) (d : Design)
        → DefaultsFit omit_csr d
        → is_some (elaborate call omit_csr d) ≡ true
    elaborated-is_some omit_csr (design rs ss ks) (h, hs) =
        bind-is_some (registers_commands omit_csr rs)
          (λ cs. add_submodules call omit_csr ss (migen_module cs no_children) >>= λ m.
            add_logic call ks m)
          (registers_commands-is_some omit_csr rs h)
          (λ cs.
            bind-is_some (add_submodules call omit_csr ss (migen_module cs no_children))
              (λ m. add_logic call ks m)
              (add_submodules-is_some omit_csr ss (migen_module cs no_children) hs)
              (λ m. add_logic-is_some ks m))

    add_submodules-is_some :
        (omit_csr : Bool) (ss : Submodules) (m : MigenModule)
        → DefaultsFitBelow omit_csr ss
        → is_some (add_submodules call omit_csr ss m) ≡ true
    add_submodules-is_some omit_csr no_submodules m h = refl
    add_submodules-is_some omit_csr (submodule n d ss) m (h, hs) =
        bind-is_some (elaborate call omit_csr d)
          (λ c. add_submodules call omit_csr ss (add_submodule n c m))
          (elaborated-is_some omit_csr d h)
          (λ c. add_submodules-is_some omit_csr ss (add_submodule n c m) hs)

  -- A design is elaborated to its end when each of its logic functions takes some of the arguments
  -- that are tried and fails only at others, before it does anything, and when the defaults fit: an
  -- array whose CSR is made has no integer as its default, and a trigger or a register of one value
  -- has an integer. A register in the RAM may have any.
  pub elaborate-is_some :
      (omit_csr : Bool) (d : Design)
      → DefaultsFit omit_csr d
      → is_some (elaborate call omit_csr d) ≡ true
  elaborate-is_some omit_csr d fit = elaborated-is_some omit_csr d fit

-- ===== src/Elaboration/Tests.antt =====
-- A design with one submodule: a register, an array, a register in the RAM and a trigger.
use pypga.Base.{
  ◌≡◌, refl, ℕ, Bool, true, false, ◌==◌, if◌then◌else◌, List, [], ◌∷◌, map, none, some, inl, inr,
  Bool-cases, arith,
}
use pypga.Base.Int.{pos}
use pypga.Instance.{Name, top}
use pypga.Elaboration.{
  number, not_given, Register, Design, design, no_submodules, submodule, signal, MigenModule,
  migen_module, Given, platform_and_soc, platform_only, nothing_given, returned, raised_type_error,
  Call, elaborate, add_logic_function, no_children,
}
use pypga.Elaboration.Csrs.{csrs, row, full_names, LeavesCsrs, elaborate-full_names}
use pypga.Elaboration.Logic.{
  Takes, TakesAny, widest, is_some, add_logic_function-widest, elaborate-is_some,
}

abbrev plain : Register
plain = record {
  trigger = false;
  in_ram = false;
  width = 8;
  signed = false;
  default = number (pos 3);
  readonly = false;
  depth = 1;
}

abbrev inner : Design
inner =
    design
      (((b'a' ∷ []), record plain { depth = 4; default = not_given })
        ∷ ((b't' ∷ []), record plain { trigger = true })
        ∷ [])
      no_submodules (0 ∷ [])

abbrev outer : Design
outer =
    design (((b'r' ∷ []), plain) ∷ ((b'd' ∷ []), record plain { in_ram = true }) ∷ [])
      (submodule (b's' ∷ []) inner no_submodules) (1 ∷ 0 ∷ [])

abbrev takes : ℕ → Given → Bool
takes k platform_and_soc = k == 1
takes k platform_only = false
takes k nothing_given = true

-- A logic function declares a signal.
abbrev declared : MigenModule → MigenModule
declared (migen_module cs ss) = migen_module (signal (b'x' ∷ []) 1 false (number (pos 0)) ∷ cs) ss

abbrev call : Call
call k g m = if takes k g then (returned, declared m) else (raised_type_error, m)

call-Takes : Takes takes call
call-Takes k g m = elim (Bool-cases (takes k g)) [
  | inl t ↦ inl (rw t (refl, refl))
  | inr f ↦ inr (rw f (refl, refl))
]

declared-csrs : (m : MigenModule) (p : List Name) → csrs p (declared m) ≡ csrs p m
declared-csrs (migen_module cs ss) p = refl

call-LeavesCsrs : LeavesCsrs call
call-LeavesCsrs k g m p = elim (Bool-cases (takes k g)) [
  | inl t ↦ rw t (declared-csrs m p)
  | inr f ↦ rw f refl
]

takes-TakesAny : TakesAny takes
takes-TakesAny k = ground arith

abbrev elaborated : MigenModule
elaborated = elim (elaborate call false outer) [ none ↦ migen_module [] no_children | some m ↦ m ]

elaborates : elaborate call false outer ≡ some elaborated
unfolding elaborate
elaborates = refl

elaborate-full_names_example :
    map (λ p. row (b'T' ∷ []) p) (csrs [] elaborated) ≡ full_names (top (b'T' ∷ [])) outer
elaborate-full_names_example =
    elaborate-full_names call outer (b'T' ∷ []) elaborated call-LeavesCsrs elaborates

add_logic_function-widest_example :
    add_logic_function call 1 elaborated ≡ widest takes call 1 elaborated
add_logic_function-widest_example = add_logic_function-widest takes call call-Takes 1 elaborated

elaborate-is_some_example : is_some (elaborate call false outer) ≡ true
elaborate-is_some_example =
    elaborate-is_some takes call call-Takes takes-TakesAny false outer
      ((refl, (refl, tt)), (((refl, (refl, tt)), tt), tt))

-- An array whose default is left at 0 cannot be elaborated.
abbrev zero_array : Design
zero_array =
    design (((b'a' ∷ []), record plain { depth = 4; default = number (pos 0) }) ∷ []) no_submodules
      []

zero_fails : elaborate call false zero_array ≡ none
unfolding elaborate
zero_fails = refl

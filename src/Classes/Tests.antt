-- ===== src/Classes/Tests.antt =====
-- A class with two registers, one of them already an object, a submodule and some logic.
use pypga.Base.{ℕ, ◌≡◌, refl, Bool, true, ◌&&◌, ◌==◌, [], ◌∷◌, some, All}
use pypga.Instance.{Name}
use pypga.Classes.{
  Hint, Attribute, Found, Class, Parts, Result, ok, scan_module_class, init_subclass, instantiate,
  create, check, readable, scan_hints, scan_hint, scan_attributes, scan_attribute, dunder,
}
use pypga.Classes.Scanning.{succeeded, all, no_instance, without_trigger, scan-succeeded}
use pypga.Classes.Subclass.{Instantiated, init_subclass-Instantiated}
use pypga.Csr.{assign, lookup, same_name}

-- The class 9 is that of the trigger registers.
abbrev trigger_class : ℕ → Bool
trigger_class k = k == 9

abbrev example : Class
example = record {
  hints = (b'r' ∷ [], Hint.register_class 1) ∷ (b'm' ∷ [], Hint.module_class 2) ∷ [];
  attributes =
      (b'l' ∷ [], Attribute.logic_function 3)
      ∷ (b's' ∷ [], Attribute.register (record { class = 1; register_name = some (b's' ∷ []) }))
      ∷ [];
}

abbrev parts : Parts
parts = record {
  registers =
      (b'r' ∷ [], Found.by_class 1)
      ∷ (b's' ∷ [], Found.by_object (record { class = 1; register_name = some (b's' ∷ []) }))
      ∷ [];
  logic = (b'l' ∷ [], 3) ∷ [];
  submodules = (b'm' ∷ [], 2) ∷ [];
  others = [];
}

abbrev defined : Class
defined = record {
  hints = example.hints;
  attributes =
      (b'l' ∷ [], Attribute.logic_function 3)
      ∷ (b's' ∷ [], Attribute.register (record { class = 1; register_name = some (b's' ∷ []) }))
      ∷ (b'r' ∷ [], Attribute.register (record { class = 1; register_name = some (b'r' ∷ []) }))
      ∷ [];
}

example-defined : init_subclass trigger_class example ≡ ok (defined, parts)
unfolding init_subclass scan_module_class scan_hints scan_hint scan_attributes scan_attribute dunder
    instantiate create check readable assign lookup same_name
example-defined = refl

scan-succeeded_example :
    succeeded (scan_module_class trigger_class example)
    ≡ all no_instance example.hints && all (without_trigger trigger_class) example.attributes
scan-succeeded_example = scan-succeeded trigger_class example

init_subclass-Instantiated_example :
    (scan_module_class trigger_class example ≡ ok parts)
    × All (λ (r : Name × Found). Instantiated defined.attributes r.0) parts.registers
init_subclass-Instantiated_example =
    init_subclass-Instantiated trigger_class example defined parts example-defined

-- A class with a trigger register can be defined, and a subclass of it cannot.
abbrev triggered : Class
triggered = record { hints = (b't' ∷ [], Hint.register_class 9) ∷ []; attributes = [] }

abbrev subclass : Class
subclass = record {
  hints = triggered.hints;
  attributes =
      (b't' ∷ [], Attribute.register (record { class = 9; register_name = some (b't' ∷ []) })) ∷ [];
}

triggered_defined : succeeded (init_subclass trigger_class triggered) ≡ true
unfolding init_subclass scan_module_class scan_hints scan_hint scan_attributes scan_attribute dunder
    instantiate create check readable assign lookup same_name
triggered_defined = refl

subclass_refused : init_subclass trigger_class subclass ≡ Result.attribute_error
unfolding init_subclass scan_module_class scan_hints scan_hint scan_attributes scan_attribute dunder
    instantiate create check readable assign lookup same_name
subclass_refused = refl

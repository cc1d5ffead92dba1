-- ===== src/Classes/Scanning.antt =====
-- When a scan of a module class succeeds.
use pypga.Base.{
  ℕ, ◌≡◌, refl, Bool, true, false, ◌&&◌, not, List, [], ◌∷◌, arith, Bool-cases, ◌⊎◌, inl, inr,
}
use pypga.Instance.{Name}
use pypga.Classes.{
  Hint, Attribute, Class, Parts, Result, ok, value_error, scan_hint, scan_hints, scan_attribute,
  scan_attributes, scan_module_class, no_parts, dunder, ◌>>=◌,
}

abbrev pub succeeded : {A : Type 0} → Result A → Bool
succeeded (ok a) = true
succeeded _ = false

-- A hint is no instance of a register or module class.
abbrev pub no_instance : Name × Hint → Bool
no_instance (n, Hint.register_object) = false
no_instance (n, Hint.module_object) = false
no_instance (n, _) = true

module _ (is_trigger : ℕ → Bool) where
  -- No trigger register is an attribute of the class.
  abbrev pub without_trigger : Name × Attribute → Bool
  without_trigger (n, Attribute.register o) = not (is_trigger o.class)
  without_trigger (n, _) = true

abbrev pub all {ℓ} : {A : Type ℓ} → (A → Bool) → List A → Bool
all f [] = true
all f (x ∷ xs) = f x && all f xs

hints_succeed :
    (hs : List (Name × Hint)) (p : Parts)
    → (all no_instance hs ≡ true × ((q : Parts) × (scan_hints hs p ≡ ok q)))
      ⊎ ((all no_instance hs ≡ false) × (succeeded (scan_hints hs p) ≡ false))
unfolding scan_hints scan_hint
hints_succeed [] p = inl (refl, (p, refl))
hints_succeed ((n, Hint.module_class k) ∷ hs) p = hints_succeed hs _
hints_succeed ((n, Hint.register_class k) ∷ hs) p = hints_succeed hs _
hints_succeed ((n, Hint.register_object) ∷ hs) p = inr (refl, refl)
hints_succeed ((n, Hint.module_object) ∷ hs) p = inr (refl, refl)
hints_succeed ((n, Hint.other_hint) ∷ hs) p = hints_succeed hs p

failed_bind :
    {A B : Type 0} (r : Result A) (f : A → Result B)
    → succeeded r ≡ false
    → succeeded (r >>= f) ≡ false
failed_bind (ok a) f h = absurd (ground arith)
failed_bind (value_error n) f h = refl
failed_bind Result.attribute_error f h = refl
failed_bind Result.assertion_error f h = refl
failed_bind Result.type_error f h = refl

attributes_succeed :
    (is_trigger : ℕ → Bool) (as_ : List (Name × Attribute)) (p : Parts)
    → succeeded (scan_attributes is_trigger as_ p) ≡ all (without_trigger is_trigger) as_
unfolding scan_attributes scan_attribute
attributes_succeed t [] p = refl
attributes_succeed t ((n, Attribute.logic_function k) ∷ as_) p = attributes_succeed t as_ _
attributes_succeed t ((n, Attribute.register o) ∷ as_) p = elim (Bool-cases (t o.class)) [
  | inl e ↦ rw e refl
  | inr e ↦ rw e (attributes_succeed t as_ _)
]
attributes_succeed t ((n, Attribute.other) ∷ as_) p = elim (Bool-cases (dunder n)) [
  | inl e ↦ rw e (attributes_succeed t as_ _)
  | inr e ↦ rw e (attributes_succeed t as_ _)
]

-- A scan succeeds exactly when no type hint is an instance of a register or module class, and no
-- attribute of the class, its own or inherited, is a trigger register. Any other hint that is no
-- such class, a type or not, is passed over.
pub scan-succeeded :
    (is_trigger : ℕ → Bool) (c : Class)
    → succeeded (scan_module_class is_trigger c)
      ≡ all no_instance c.hints && all (without_trigger is_trigger) c.attributes
unfolding scan_module_class
scan-succeeded t c = elim (hints_succeed c.hints no_parts) [
  | inl (no_instances, (p, e)) ↦ rw (no_instances, e) (attributes_succeed t c.attributes p)
  | inr (some_, e) ↦
      rw some_ (failed_bind (scan_hints c.hints no_parts) (λ p. scan_attributes t c.attributes p) e)
]

-- ===== src/Classes/Subclass.antt =====
-- What `__init_subclass__` leaves on the class.
use pypga.Base.{
  ℕ, ◌≡◌, refl, sym, ap, ◌∙◌, Bool, Bool-cases, inl, inr, ◌⊎◌, if◌then◌else◌, List, [], ◌∷◌, Option,
  none, some, All, arith,
}
use pypga.Instance.{Name}
use pypga.Csr.{assign, lookup, same_name}
use pypga.Csr.Lookup.{same_name_refl, same_name_eq, lookup-assign}
use pypga.Classes.{
  Attribute, Object, Found, Class, Parts, Result, ok, create, check, readable, instantiate,
  init_subclass, scan_module_class, ◌>>=◌,
}

-- The attribute of this name is a register object that bears the name.
abbrev pub Instantiated : List (Name × Attribute) → Name → Type 0
Instantiated as_ n =
    (o : Object) × (lookup n as_ ≡ some (Attribute.register o)) × (o.register_name ≡ some n)

abbrev made : Name → ℕ → Attribute
made n k = Attribute.register (record { class = k; register_name = some n })

bind-ok :
    {A B : Type 0} (r : Result A) (f : A → Result B) (b : B)
    → r >>= f ≡ ok b
    → (a : A) × (r ≡ ok a) × (f a ≡ ok b)
bind-ok (ok a) f b h = (a, refl, h)
bind-ok (Result.value_error n) f b h = absurd (ground arith)
bind-ok Result.attribute_error f b h = absurd (ground arith)
bind-ok Result.assertion_error f b h = absurd (ground arith)
bind-ok Result.type_error f b h = absurd (ground arith)

-- A round makes the object, or finds it.
abbrev Round : Name → List (Name × Attribute) → List (Name × Attribute) → Type 0
Round n as_ next =
    ((k : ℕ) × (next ≡ assign n (made n k) as_)) ⊎ ((next ≡ as_) × Instantiated as_ n)

create-Round :
    (t : ℕ → Bool) (n : Name) (f : Found) (as_ next : List (Name × Attribute))
    → create t n f as_ ≡ ok next
    → Round n as_ next
unfolding create
create-Round t n (Found.by_class k) as_ next h = inl (k, ground arith)
create-Round t n (Found.by_object o) as_ next h = absurd (ground arith)

check-Round :
    (t : ℕ → Bool) (n : Name) (a : Attribute) (as_ next : List (Name × Attribute))
    → lookup n as_ ≡ some a
    → check t n a as_ ≡ ok next
    → Round n as_ next
unfolding check
check-Round t n (Attribute.register o) as_ next e h = named o.register_name refl h
  where
    named :
        (x : Option Name)
        → o.register_name ≡ x
        → elim x [
          | none ↦ Result.assertion_error
          | some m ↦ if same_name m n then ok as_ else Result.assertion_error
        ]
          ≡ ok next
        → Round n as_ next
    named none q k = absurd (ground arith)
    named (some m) q k = elim (Bool-cases (same_name m n)) [
      | inl same ↦
          let kept : ok as_ ≡ ok next = rw same at k in
          inr (ground arith, (o, e, q ∙ ap some (same_name_eq m n same)))
      | inr other ↦ absurd (ground arith)
    ]
check-Round t n (Attribute.logic_function k) as_ next e h = absurd (ground arith)
check-Round t n Attribute.other as_ next e h = absurd (ground arith)

readable-some :
    (t : ℕ → Bool) (x : Option Attribute) (a : Attribute) → readable t x ≡ some a → x ≡ some a
unfolding readable
readable-some t (some (Attribute.register o)) a h = ground arith
readable-some t (some (Attribute.logic_function k)) a h = h
readable-some t (some Attribute.other) a h = h
readable-some t none a h = absurd (ground arith)

keeps :
    (n m : Name) (as_ next : List (Name × Attribute))
    → Round n as_ next
    → Instantiated as_ m
    → Instantiated next m
keeps n m as_ next (inl (k, e)) i = elim (Bool-cases (same_name n m)) [
  | inl same ↦ (
    record { class = k; register_name = some n },
    ap (lookup m) e
        ∙ lookup-assign n m (made n k) as_
        ∙ ap (λ b. if b then some (made n k) else lookup m as_) same,
    ap some (same_name_eq n m same),
  )
  | inr other ↦ (
    i.0,
    ap (lookup m) e
        ∙ lookup-assign n m (made n k) as_
        ∙ ap (λ b. if b then some (made n k) else lookup m as_) other
        ∙ i.1,
    i.2,
  )
]
keeps n m as_ next (inr (e, found)) (o, at, bears) = (o, ap (lookup m) e ∙ at, bears)

makes : (n : Name) (as_ next : List (Name × Attribute)) → Round n as_ next → Instantiated next n
makes n as_ next (inl (k, e)) = (
  record { class = k; register_name = some n },
  ap (lookup n) e
      ∙ lookup-assign n n (made n k) as_
      ∙ ap (λ b. if b then some (made n k) else lookup n as_) (same_name_refl n),
  refl,
)
makes n as_ next (inr (e, (o, at, bears))) = (o, ap (lookup n) e ∙ at, bears)

readable-Round :
    (t : ℕ → Bool) (n : Name) (f : Found) (as_ next : List (Name × Attribute))
    (x : Option Attribute)
    → readable t (lookup n as_) ≡ x
    → elim x [ none ↦ create t n f as_ | some a ↦ check t n a as_ ] ≡ ok next
    → Round n as_ next
readable-Round t n f as_ next none e h = create-Round t n f as_ next h
readable-Round t n f as_ next (some a) e h =
    check-Round t n a as_ next (readable-some t (lookup n as_) a e) h

instantiate-keeps :
    (t : ℕ → Bool) (rs : List (Name × Found)) (as_ last : List (Name × Attribute)) (m : Name)
    → instantiate t rs as_ ≡ ok last
    → Instantiated as_ m
    → Instantiated last m
unfolding instantiate
instantiate-keeps t [] as_ last m h i =
    let e : as_ ≡ last = ground arith in (i.0, ap (lookup m) (sym e) ∙ i.1, i.2)
instantiate-keeps t ((n, f) ∷ rs) as_ last m h i =
    let (next, one, others) = bind-ok _ (λ l. instantiate t rs l) last h in
    instantiate-keeps t rs next last m others
      (keeps n m as_ next (readable-Round t n f as_ next (readable t (lookup n as_)) refl one) i)

instantiate-All :
    (t : ℕ → Bool) (rs : List (Name × Found)) (as_ last : List (Name × Attribute))
    → instantiate t rs as_ ≡ ok last
    → All (λ (r : Name × Found). Instantiated last r.0) rs
unfolding instantiate
instantiate-All t [] as_ last h = tt
instantiate-All t ((n, f) ∷ rs) as_ last h =
    let (next, one, others) = bind-ok _ (λ l. instantiate t rs l) last h in
    (
      instantiate-keeps t rs next last n others
          (makes n as_ next (readable-Round t n f as_ next (readable t (lookup n as_)) refl one)),
      instantiate-All t rs next last others,
    )

-- A class definition that goes through lists the parts that the scan of the class found, and leaves
-- for every register among them a register object that bears its name as the attribute of that
-- name.
pub init_subclass-Instantiated :
    (is_trigger : ℕ → Bool) (c after : Class) (p : Parts)
    → init_subclass is_trigger c ≡ ok (after, p)
    → (scan_module_class is_trigger c ≡ ok p)
      × All (λ (r : Name × Found). Instantiated after.attributes r.0) p.registers
unfolding init_subclass
init_subclass-Instantiated t c after p h =
    let (q, scanned, rest) = bind-ok (scan_module_class t c) _ (after, p) h in
    let (last, looped, done) = bind-ok (instantiate t q.registers c.attributes) _ (after, p) rest in
    let parts : q ≡ p = ground arith in
    let attributes : last ≡ after.attributes = ground arith in
    let all_ = instantiate-All t q.registers c.attributes last looped in
    (scanned ∙ ap ok parts, rw (sym parts, sym attributes) all_)

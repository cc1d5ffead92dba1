-- ===== src/Classes.antt =====
-- pypga/core/module.py: `scan_module_class` and `Module.__init_subclass__`, which find the
-- registers, submodules and logic of a module class and put a register object in the place of each
-- register. The type hints and the attributes of a class, with those that it inherits, are
-- association lists in the order of `typing.get_type_hints` and of `dir`; a class or function is a
-- number.
pub mod Scanning
pub mod Subclass
mod Tests
use pypga.Base.{
  ℕ, zero, suc, Bool, true, false, ◌==◌, ◌&&◌, not, if◌then◌else◌, List, [], ◌∷◌, ◌++◌, Option,
  none, some,
}
use pypga.Instance.{Name}
use pypga.Csr.{assign, lookup, same_name}

-- A type hint: a subclass of Module or of _Register, an instance of one of them, or something else.
pub data Hint : Type 0 where
  module_class register_class : ℕ → Hint
  register_object module_object other_hint : Hint

-- An instance of a register class.
pub record Object : Type 0 where
  pub class : ℕ
  pub register_name : Option Name

-- What `getattr` finds on the class.
pub data Attribute : Type 0 where
  logic_function : ℕ → Attribute
  register : Object → Attribute
  other : Attribute

pub record Class : Type 0 where
  pub hints : List (Name × Hint)
  pub attributes : List (Name × Attribute)

-- An entry of the dict of registers.
pub data Found : Type 0 where
  by_class : ℕ → Found
  by_object : Object → Found

-- The four dicts of a scan.
pub record Parts : Type 0 where
  pub registers : List (Name × Found)
  pub logic : List (Name × ℕ)
  pub submodules : List (Name × ℕ)
  pub others : List (Name × Attribute)

-- The exceptions; the `ValueError` names the hint.
pub data Result (A : Type 0) : Type 0 where
  ok : A → Result A
  value_error : Name → Result A
  attribute_error assertion_error type_error : Result A

infixl 5 ◌>>=◌
abbrev pub ◌>>=◌ : {A B : Type 0} → Result A → (A → Result B) → Result B
ok a >>= f = f a
value_error n >>= f = value_error n
attribute_error >>= f = attribute_error
assertion_error >>= f = assertion_error
type_error >>= f = type_error

abbrev pub no_parts : Parts
no_parts = record { registers = []; logic = []; submodules = []; others = [] }

-- One round of the loop over the type hints.
unfoldable pub scan_hint : Name × Hint → Parts → Result Parts
unfolding assign
scan_hint (n, module_class k) p = ok (record p { submodules = assign n k p.submodules })
scan_hint (n, register_class k) p = ok (record p { registers = assign n (by_class k) p.registers })
scan_hint (n, register_object) p = value_error n
scan_hint (n, module_object) p = value_error n
scan_hint (n, other_hint) p = ok p

unfoldable pub scan_hints : List (Name × Hint) → Parts → Result Parts
unfolding scan_hint
scan_hints [] p = ok p
scan_hints (h ∷ hs) p = scan_hint h p >>= λ q. scan_hints hs q

-- `name.startswith("__")`
unfoldable pub dunder : Name → Bool
dunder [] = false
dunder (a ∷ []) = false
dunder (a ∷ b ∷ cs) = a == b'_' && b == b'_'

-- `getattr` of a trigger register without an instance raises an `AttributeError`, since its
-- `__get__` asks the instance for its interface; the one of another register returns the register.
module _ (is_trigger : ℕ → Bool) where
  -- One round of the loop over `dir(module_class)`.
  unfoldable pub scan_attribute : Name × Attribute → Parts → Result Parts
  unfolding dunder assign
  scan_attribute (n, logic_function k) p = ok (record p { logic = assign n k p.logic })
  scan_attribute (n, register o) p =
      if is_trigger o.class
      then attribute_error
      else ok (record p { registers = assign n (by_object o) p.registers })
  scan_attribute (n, other) p =
      if dunder n then ok p else ok (record p { others = assign n other p.others })

  unfoldable pub scan_attributes : List (Name × Attribute) → Parts → Result Parts
  unfolding scan_attribute
  scan_attributes [] p = ok p
  scan_attributes (a ∷ as_) p = scan_attribute a p >>= λ q. scan_attributes as_ q

  unfoldable pub scan_module_class : Class → Result Parts
  unfolding scan_hints scan_attributes
  scan_module_class c = scan_hints c.hints no_parts >>= λ p. scan_attributes c.attributes p

  -- `register_cls()`, for a register without an attribute; what is already an object cannot be
  -- called.
  unfoldable pub create : Name → Found → List (Name × Attribute) → Result (List (Name × Attribute))
  unfolding assign
  create n (by_class k) as_ =
      ok (assign n (register (record { class = k; register_name = some n })) as_)
  create n (by_object o) as_ = type_error

  -- The assertions on a register that was already instantiated.
  unfoldable pub check :
      Name → Attribute → List (Name × Attribute) → Result (List (Name × Attribute))
  unfolding same_name
  check n (register o) as_ = elim o.register_name [
    | none ↦ assertion_error
    | some m ↦ if same_name m n then ok as_ else assertion_error
  ]
  check n (logic_function k) as_ = assertion_error
  check n other as_ = assertion_error

  -- What `getattr(cls, name)` returns; `none` is an `AttributeError`.
  unfoldable pub readable : Option Attribute → Option Attribute
  readable (some (register o)) = if is_trigger o.class then none else some (register o)
  readable (some (logic_function k)) = some (logic_function k)
  readable (some other) = some other
  readable none = none

  -- The loop that instantiates the registers.
  unfoldable pub instantiate :
      List (Name × Found) → List (Name × Attribute) → Result (List (Name × Attribute))
  unfolding lookup create check readable
  instantiate [] as_ = ok as_
  instantiate (r ∷ rs) as_ =
      elim (readable (lookup r.0 as_)) [ none ↦ create r.0 r.1 as_ | some a ↦ check r.0 a as_ ]
      >>= λ next. instantiate rs next

  -- `__init_subclass__`: the class with its register objects, and its `_pypga_...` dicts.
  unfoldable pub init_subclass : Class → Result (Class × Parts)
  unfolding scan_module_class instantiate
  init_subclass c = scan_module_class c >>= λ p.
      instantiate p.registers c.attributes >>= λ as_. ok (record c { attributes = as_ }, p)

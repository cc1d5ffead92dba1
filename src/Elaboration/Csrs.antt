-- ===== src/Elaboration/Csrs.antt =====
-- The CSRs of an elaborated design, and the names under which the registers are accessed.
use pypga.Base.{
  ◌≡◌, refl, ap, ap₂, sym, ◌∙◌, ℕ, Bool, true, false, Bool-cases, inl, inr, ◌||◌, not, ◌==◌,
  if◌then◌else◌, List, [], ◌∷◌, ◌++◌, map, Option, none, some,
}
use pypga.Base.Options.{◌>>=◌}
use mathlib.Core.Path.{subst}
use mathlib.Core.List.{append_assoc, append-nil}
use pypga.Instance.{Name, Instance, top, child, join, register_full_name}
use pypga.Instance.Names.{below, root, full_name_below}
use pypga.Elaboration.{
  is_number, Register, Design, design, Submodules, no_submodules, submodule, Command, signal,
  csr_status, csr_storage, drive_status, drive_value, written, memory, MigenModule, migen_module,
  Children, no_children, with_child, register_commands, registers_commands, add_submodule, Given,
  Reply, returned, raised_type_error, raised_other, Call, call_last, call_second, call_first,
  add_logic_function, add_logic, elaborate, add_submodules, name_csr,
}

-- The CSRs among some commands.
abbrev pub command_csrs : List Command → List Name
command_csrs [] = []
command_csrs (csr_status n size reset ∷ cs) = n ∷ command_csrs cs
command_csrs (csr_storage n size reset ∷ cs) = n ∷ command_csrs cs
command_csrs (signal n width signed reset ∷ cs) = command_csrs cs
command_csrs (drive_status n m ∷ cs) = command_csrs cs
command_csrs (drive_value n m ∷ cs) = command_csrs cs
command_csrs (written n m ∷ cs) = command_csrs cs
command_csrs (memory n width depth readonly ∷ cs) = command_csrs cs

-- The CSRs of a module, each by the names on the way to it.
abbrev mutual
  pub csrs : List Name → MigenModule → List (List Name)
  csrs p (migen_module cs ss) = map (λ n. p ++ (n ∷ [])) (command_csrs cs) ++ child_csrs p ss

  pub child_csrs : List Name → Children → List (List Name)
  child_csrs p no_children = []
  child_csrs p (with_child ss n m) = child_csrs p ss ++ csrs (p ++ (n ∷ [])) m

-- The name in csr.csv of a CSR below a top module: the names on the way, joined.
abbrev pub row : Name → List Name → Name
row top_name p = top_name ++ (b'.' ∷ join p)

-- The full names of the registers of an instance that are accessed through a CSR.
abbrev pub own_names : Instance → List (Name × Register) → List Name
own_names i [] = []
own_names i (r ∷ rs) =
    (if r.1.trigger || not r.1.in_ram then register_full_name i r.0 ∷ [] else []) ++ own_names i rs

-- Those of an instance of a design and of the instances in it.
abbrev mutual
  pub full_names : Instance → Design → List Name
  full_names i (design rs ss ks) = own_names i rs ++ names_below i ss

  pub names_below : Instance → Submodules → List Name
  names_below i no_submodules = []
  names_below i (submodule n d ss) = full_names (child n i) d ++ names_below i ss

-- A logic function adds no CSR and removes none.
abbrev pub LeavesCsrs : Call → Type 0
LeavesCsrs call =
    (k : ℕ) (g : Given) (m : MigenModule) (p : List Name) → csrs p (call k g m).1 ≡ csrs p m

OnSome : {A : Type 0} → (A → Type 0) → Option A → Type 0
OnSome P none = Unit
OnSome P (some m) = P m

bind-OnSome :
    {A B : Type 0} (P : B → Type 0) (Q : A → Type 0) (o : Option A) (f : A → Option B)
    → OnSome Q o
    → ((m : A) → Q m → OnSome P (f m))
    → OnSome P (o >>= f)
unfolding OnSome
bind-OnSome P Q none f h k = tt
bind-OnSome P Q (some m) f h k = k m h

map-OnSome :
    {A : Type 0} (P Q : A → Type 0) (o : Option A) → OnSome Q o → ((m : A) → Q m → P m) → OnSome P o
unfolding OnSome
map-OnSome P Q none h k = tt
map-OnSome P Q (some m) h k = k m h

module _ (call : Call) (leaves : LeavesCsrs call) (p : List Name) where
  call_last-csrs :
      (m : MigenModule) (r : Reply × MigenModule)
      → csrs p r.1 ≡ csrs p m
      → OnSome (λ n. csrs p n ≡ csrs p m) (call_last r)
  unfolding call_last OnSome
  call_last-csrs m (returned, n) h = h
  call_last-csrs m (raised_type_error, n) h = tt
  call_last-csrs m (raised_other, n) h = tt

  call_second-csrs :
      (k : ℕ) (m : MigenModule) (r : Reply × MigenModule)
      → csrs p r.1 ≡ csrs p m
      → OnSome (λ n. csrs p n ≡ csrs p m) (call_second call k r)
  unfolding call_second OnSome
  call_second-csrs k m (returned, n) h = h
  call_second-csrs k m (raised_type_error, n) h =
      call_last-csrs m (call k Given.nothing_given n) (leaves k Given.nothing_given n p ∙ h)
  call_second-csrs k m (raised_other, n) h = tt

  call_first-csrs :
      (k : ℕ) (m : MigenModule) (r : Reply × MigenModule)
      → csrs p r.1 ≡ csrs p m
      → OnSome (λ n. csrs p n ≡ csrs p m) (call_first call k r)
  unfolding call_first OnSome
  call_first-csrs k m (returned, n) h = h
  call_first-csrs k m (raised_type_error, n) h =
      call_second-csrs k m (call k Given.platform_only n) (leaves k Given.platform_only n p ∙ h)
  call_first-csrs k m (raised_other, n) h = tt

  add_logic-csrs :
      (ks : List ℕ) (m n : MigenModule)
      → csrs p n ≡ csrs p m
      → OnSome (λ l. csrs p l ≡ csrs p m) (add_logic call ks n)
  unfolding add_logic add_logic_function OnSome
  add_logic-csrs [] m n h = h
  add_logic-csrs (k ∷ ks) m n h =
      bind-OnSome (λ l. csrs p l ≡ csrs p m) (λ l. csrs p l ≡ csrs p m)
        (add_logic_function call k n) (λ l. add_logic call ks l)
        (call_first-csrs k m (call k Given.platform_and_soc n)
          (leaves k Given.platform_and_soc n p ∙ h))
        (λ l e. add_logic-csrs ks m l e)

map-append {ℓ κ} :
    {A : Type ℓ} {B : Type κ} (f : A → B) (xs ys : List A) → map f (xs ++ ys) ≡ map f xs ++ map f ys
map-append f [] ys = refl
map-append f (x ∷ xs) ys = ap (λ l. f x ∷ l) (map-append f xs ys)

-- `join` and what follows the last name.
join-last :
    (xs : List Name) (n suffix : Name)
    → join (xs ++ ((n ++ suffix) ∷ [])) ≡ join (xs ++ (n ∷ [])) ++ suffix
unfolding join
join-last [] n suffix = refl
join-last (x ∷ []) n suffix = sym (append_assoc x (b'_' ∷ n) suffix)
join-last (x ∷ y ∷ xs) n suffix =
    ap (λ l. x ++ (b'_' ∷ l)) (join-last (y ∷ xs) n suffix)
    ∙ sym (append_assoc x (b'_' ∷ join (y ∷ (xs ++ (n ∷ [])))) suffix)

row-full_name :
    (i : Instance) (n : Name) → row (root i) (below i ++ (name_csr n ∷ [])) ≡ register_full_name i n
row-full_name i n =
    ap (λ l. root i ++ (b'.' ∷ l)) (join-last (below i) n (b'_' ∷ b'c' ∷ b's' ∷ b'r' ∷ []))
    ∙ sym (full_name_below i n)

-- The CSRs of a register.
register-csrs :
    (n : Name) (r : Register)
    → OnSome
        (λ cs. command_csrs cs ≡ (if r.trigger || not r.in_ram then name_csr n ∷ [] else []))
        (register_commands false n r)
unfolding register_commands OnSome
register-csrs n r = elim (Bool-cases r.trigger) [
  | inl t ↦ rw t refl
  | inr f ↦ elim (Bool-cases r.in_ram) [
    | inl u ↦ rw (f, u) refl
    | inr g ↦ elim (Bool-cases (r.depth == 1)) [
      | inl d ↦ elim (Bool-cases r.readonly) [
        | inl o ↦ rw (f, g, d, o) refl
        | inr w ↦ rw (f, g, d, w) refl
      ]
      | inr a ↦ elim (Bool-cases (is_number r.default)) [
        | inl fails ↦ rw (f, g, a, fails) tt
        | inr made ↦ rw (f, g, a, made) refl
      ]
    ]
  ]
]

command_csrs-append :
    (cs ds : List Command) → command_csrs (cs ++ ds) ≡ command_csrs cs ++ command_csrs ds
command_csrs-append [] ds = refl
command_csrs-append (csr_status n size reset ∷ cs) ds = ap (λ l. n ∷ l) (command_csrs-append cs ds)
command_csrs-append (csr_storage n size reset ∷ cs) ds = ap (λ l. n ∷ l) (command_csrs-append cs ds)
command_csrs-append (signal n width signed reset ∷ cs) ds = command_csrs-append cs ds
command_csrs-append (drive_status n m ∷ cs) ds = command_csrs-append cs ds
command_csrs-append (drive_value n m ∷ cs) ds = command_csrs-append cs ds
command_csrs-append (written n m ∷ cs) ds = command_csrs-append cs ds
command_csrs-append (memory n width depth readonly ∷ cs) ds = command_csrs-append cs ds

-- The rows of some CSRs of an instance.
abbrev rows : Instance → List Name → List Name
rows i ns = map (λ p. row (root i) p) (map (λ n. below i ++ (n ∷ [])) ns)

rows-append : (i : Instance) (ms ns : List Name) → rows i (ms ++ ns) ≡ rows i ms ++ rows i ns
rows-append i ms ns =
    ap (map (λ p. row (root i) p)) (map-append (λ n. below i ++ (n ∷ [])) ms ns)
    ∙ map-append (λ p. row (root i) p) (map (λ n. below i ++ (n ∷ [])) ms)
        (map (λ n. below i ++ (n ∷ [])) ns)

one_row :
    (i : Instance) (n : Name) (b : Bool)
    → rows i (if b then name_csr n ∷ [] else []) ≡ (if b then register_full_name i n ∷ [] else [])
one_row i n true = ap (λ l. l ∷ []) (row-full_name i n)
one_row i n false = refl

rows-own_names :
    (i : Instance) (rs : List (Name × Register))
    → OnSome (λ cs. rows i (command_csrs cs) ≡ own_names i rs) (registers_commands false rs)
unfolding registers_commands OnSome
rows-own_names i [] = refl
rows-own_names i (r ∷ rs) =
    let b : Bool = r.1.trigger || not r.1.in_ram in
    bind-OnSome (λ cs. rows i (command_csrs cs) ≡ own_names i (r ∷ rs))
      (λ cs. command_csrs cs ≡ (if b then name_csr r.0 ∷ [] else []))
      (register_commands false r.0 r.1)
      (λ cs. registers_commands false rs >>= λ ds. some (cs ++ ds)) (register-csrs r.0 r.1)
      (λ cs first.
        bind-OnSome (λ ds. rows i (command_csrs ds) ≡ own_names i (r ∷ rs))
          (λ ds. rows i (command_csrs ds) ≡ own_names i rs) (registers_commands false rs)
          (λ ds. some (cs ++ ds)) (rows-own_names i rs)
          (λ ds others.
            ap (rows i) (command_csrs-append cs ds)
            ∙ rows-append i (command_csrs cs) (command_csrs ds)
            ∙ ap₂ (λ l k. l ++ k) (ap (rows i) first ∙ one_row i r.0 b) others))

-- The names in csr.csv of the CSRs of a module.
abbrev pub module_rows : Instance → MigenModule → List Name
module_rows i m = map (λ p. row (root i) p) (csrs (below i) m)

add_submodule-rows :
    (i : Instance) (n : Name) (c m : MigenModule)
    → module_rows i (add_submodule n c m) ≡ module_rows i m ++ module_rows (child n i) c
unfolding add_submodule
add_submodule-rows i n c (migen_module cs ss) =
    let own : List (List Name) = map (λ k. below i ++ (k ∷ [])) (command_csrs cs) in
    ap (map (λ p. row (root i) p))
      (sym (append_assoc own (child_csrs (below i) ss) (csrs (below i ++ (n ∷ [])) c)))
    ∙ map-append (λ p. row (root i) p) (own ++ child_csrs (below i) ss)
        (csrs (below i ++ (n ∷ [])) c)

own-rows :
    (i : Instance) (rs : List (Name × Register)) (cs : List Command)
    → rows i (command_csrs cs) ≡ own_names i rs
    → module_rows i (migen_module cs no_children) ≡ own_names i rs
own-rows i rs cs h =
    ap (map (λ p. row (root i) p)) (append-nil (map (λ n. below i ++ (n ∷ [])) (command_csrs cs)))
    ∙ h

module _ (call : Call) (leaves : LeavesCsrs call) where
  elaborate_rest-rows :
      (i : Instance) (rs : List (Name × Register)) (ss : Submodules) (ks : List ℕ)
      (cs : List Command)
      → rows i (command_csrs cs) ≡ own_names i rs
      → OnSome
          (λ n. module_rows i n ≡ module_rows i (migen_module cs no_children) ++ names_below i ss)
          (add_submodules call false ss (migen_module cs no_children))
      → OnSome
          (λ n. module_rows i n ≡ own_names i rs ++ names_below i ss)
          (add_submodules call false ss (migen_module cs no_children) >>= λ n. add_logic call ks n)
  unfolding OnSome
  elaborate_rest-rows i rs ss ks cs h below_ =
      let m : MigenModule = migen_module cs no_children in
      bind-OnSome (λ n. module_rows i n ≡ own_names i rs ++ names_below i ss)
        (λ n. module_rows i n ≡ module_rows i m ++ names_below i ss)
        (add_submodules call false ss m) (λ n. add_logic call ks n) below_
        (λ n e.
          map-OnSome (λ l. module_rows i l ≡ own_names i rs ++ names_below i ss)
            (λ l. csrs (below i) l ≡ csrs (below i) n) (add_logic call ks n)
            (add_logic-csrs call leaves (below i) ks n n refl)
            (λ l k.
              ap (map (λ p. row (root i) p)) k
              ∙ e
              ∙ ap (λ x. x ++ names_below i ss) (own-rows i rs cs h)))

  mutual
    unfolding elaborate OnSome

    elaborate-rows :
        (i : Instance) (d : Design)
        → OnSome (λ m. module_rows i m ≡ full_names i d) (elaborate call false d)
    elaborate-rows i (design rs ss ks) =
        bind-OnSome (λ n. module_rows i n ≡ own_names i rs ++ names_below i ss)
          (λ cs. rows i (command_csrs cs) ≡ own_names i rs) (registers_commands false rs)
          (λ cs.
            add_submodules call false ss (migen_module cs no_children) >>= λ n. add_logic call ks n)
          (rows-own_names i rs)
          (λ cs h.
            elaborate_rest-rows i rs ss ks cs h
              (add_submodules-rows i ss (migen_module cs no_children)))

    add_submodules-rows :
        (i : Instance) (ss : Submodules) (m : MigenModule)
        → OnSome
            (λ n. module_rows i n ≡ module_rows i m ++ names_below i ss)
            (add_submodules call false ss m)
    add_submodules-rows i no_submodules m = sym (append-nil (module_rows i m))
    add_submodules-rows i (submodule n d ss) m =
        bind-OnSome
          (λ l. module_rows i l ≡ module_rows i m ++ (full_names (child n i) d ++ names_below i ss))
          (λ c. module_rows (child n i) c ≡ full_names (child n i) d) (elaborate call false d)
          (λ c. add_submodules call false ss (add_submodule n c m)) (elaborate-rows (child n i) d)
          (λ c e.
            map-OnSome
              (λ l.
                module_rows i l ≡ module_rows i m ++ (full_names (child n i) d ++ names_below i ss))
              (λ l. module_rows i l ≡ module_rows i (add_submodule n c m) ++ names_below i ss)
              (add_submodules call false ss (add_submodule n c m))
              (add_submodules-rows i ss (add_submodule n c m))
              (λ l k.
                k
                ∙ ap (λ x. x ++ names_below i ss)
                    (add_submodule-rows i n c m ∙ ap (λ x. module_rows i m ++ x) e)
                ∙ append_assoc (module_rows i m) (full_names (child n i) d) (names_below i ss)))

some-OnSome :
    (P : MigenModule → Type 0) (o : Option MigenModule) (m : MigenModule)
    → o ≡ some m
    → OnSome P o
    → P m
unfolding OnSome
some-OnSome P o m e h = subst (OnSome P) e h

-- If no logic function adds or removes a CSR, then the CSRs of a design that is elaborated to its
-- end have the names under which Python reads and writes the registers of its instances: for
-- each register that is not in the RAM one, in the order of the registers and then of the
-- submodules, and no other.
pub elaborate-full_names :
    (call : Call) (d : Design) (top_name : Name) (m : MigenModule)
    → LeavesCsrs call
    → elaborate call false d ≡ some m
    → map (λ p. row top_name p) (csrs [] m) ≡ full_names (top top_name) d
elaborate-full_names call d top_name m leaves e =
    some-OnSome (λ n. module_rows (top top_name) n ≡ full_names (top top_name) d)
      (elaborate call false d) m e (elaborate-rows call leaves (top top_name) d)

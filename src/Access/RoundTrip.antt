-- ===== src/Access/RoundTrip.antt =====
-- A register gives back what it was set to.
use pypga.Base.{
  ℕ, ◌≡◌, ◌≢◌, refl, ap, ap₂, sym, ◌∙◌, Bool, true, false, ◌==◌, List, [], ◌∷◌, map, none, some,
  All, All-append, length, length-append, ◌++◌, length-map, arith,
}
use mathlib.Core.List.{reverse, reverse-reverse, reverse-cons}
use pypga.Base.Int.{ℤ, pos, ◌+ℤ◌, ◌≤ℤ◌, ◌<ℤ◌}
use pypga.Register.{Spec, shifted}
use pypga.Register.Raw.{to_python, from_python, raw_in_range}
use pypga.Instance.{Instance, register_full_name}
use pypga.Csr.{CsrMap, Bus, read_array, write_array, name_to_address}
use pypga.Access.{Attributes, one, many, ok, set_register, get_register, ordered, read_one}

-- A value that the register can hold.
abbrev pub InRange : Spec → ℤ → Type 0
InRange r v = (pos 0 ≤ℤ v +ℤ r.offset_from_python) × (v +ℤ r.offset_from_python <ℤ shifted r.width)

-- What the register memory holds: raw values of its width.
abbrev pub RawInRange : Spec → ℤ → Type 0
RawInRange r v = (pos 0 ≤ℤ v) × (v <ℤ shifted r.width)

-- At an address and in a state, so many words that fit are read back when they are written.
abbrev pub Keeps : {S : Type 0} → Bus ℤ S → Spec → ℕ → ℕ → S → Type 0
Keeps {S = S} bus r a n s =
    (vs : List ℤ)
    → length vs ≡ n
    → All (RawInRange r) vs
    → (Bus.read_from_address bus a n (Bus.write_to_address bus a vs s)).0 ≡ vs

map-to-from :
    (r : Spec) (vs : List ℤ) → All (InRange r) vs → map (to_python r) (map (from_python r) vs) ≡ vs
map-to-from r [] h = refl
map-to-from r (v ∷ vs) h = ap₂ ◌∷◌ (raw_in_range r v h.0.0 h.0.1).1 (map-to-from r vs h.1)

from_python-RawInRange : (r : Spec) (v : ℤ) → InRange r v → RawInRange r (from_python r v)
from_python-RawInRange r v h = rw ((raw_in_range r v h.0 h.1).0) h

All-RawInRange :
    (r : Spec) (vs : List ℤ) → All (InRange r) vs → All (RawInRange r) (map (from_python r) vs)
All-RawInRange r [] h = tt
All-RawInRange r (v ∷ vs) h = (from_python-RawInRange r v h.0, All-RawInRange r vs h.1)

map-snoc : (f : ℤ → ℤ) (xs : List ℤ) (x : ℤ) → map f (xs ++ (x ∷ [])) ≡ map f xs ++ (f x ∷ [])
map-snoc f [] x = refl
map-snoc f (y ∷ ys) x = ap (λ l. f y ∷ l) (map-snoc f ys x)

map-reverse : (f : ℤ → ℤ) (xs : List ℤ) → map f (reverse xs) ≡ reverse (map f xs)
map-reverse f [] = refl
map-reverse f (x ∷ xs) =
    ap (map f) (reverse-cons x xs)
    ∙ map-snoc f (reverse xs) x
    ∙ ap (λ l. l ++ (f x ∷ [])) (map-reverse f xs)
    ∙ sym (reverse-cons (f x) (map f xs))

ordered_twice : (b : Bool) (f : ℤ → ℤ) (vs : List ℤ) → ordered b (map f (ordered b vs)) ≡ map f vs
unfolding ordered
ordered_twice false f vs = refl
ordered_twice true f vs = ap reverse (map-reverse f vs) ∙ reverse-reverse (map f vs)

length-reverse : (vs : List ℤ) → length (reverse vs) ≡ length vs
length-reverse [] = refl
length-reverse (v ∷ vs) =
    ap length (reverse-cons v vs)
    ∙ omega (arith, length-append (reverse vs) (v ∷ []), length-reverse vs)

length-ordered : (b : Bool) (vs : List ℤ) → length (ordered b vs) ≡ length vs
unfolding ordered
length-ordered false vs = refl
length-ordered true vs = length-reverse vs

All-reverse : (P : ℤ → Type 0) (vs : List ℤ) → All P vs → All P (reverse vs)
All-reverse P [] h = tt
All-reverse P (v ∷ vs) h =
    rw (reverse-cons v vs) (All-append P (reverse vs) (v ∷ []) (All-reverse P vs h.1) (h.0, tt))

All-ordered : (P : ℤ → Type 0) (b : Bool) (vs : List ℤ) → All P vs → All P (ordered b vs)
unfolding ordered
All-ordered P false vs h = h
All-ordered P true vs h = All-reverse P vs h

-- A register that can be set, of more than one value, gives back the values that it was set to, in
-- their order, if its name is known, the values are as many as it has and in its range, and its
-- address, as it is then, keeps as many words that fit.
pub array_round_trip :
    {S : Type 0} (bus : Bus ℤ S) (ram : ℕ → ℕ → S → List ℤ × S) (m : CsrMap) (r : Attributes)
    (i : Instance) (a : ℕ) (vs : List ℤ) (s : S)
    → r.readonly ≡ false
    → r.ram_offset ≡ none
    → name_to_address m (register_full_name i r.reg_name) ≡ some a
    → Keeps bus r.spec a r.depth s
    → All (InRange r.spec) vs
    → r.depth ≡ length vs
    → r.depth ≢ 1
    → (s' : S) × (s'' : S) × (set_register bus ram m r i (many vs) s ≡ ok s')
      × (get_register bus ram m r i s' ≡ ok (many vs, s''))
unfolding set_register get_register read_array write_array name_to_address
array_round_trip bus ram m r i a vs s w o known keeps fits size several =
    let raw : List ℤ = map (from_python r.spec) (ordered r.reverse_order vs) in
    let s' : _ = Bus.write_to_address bus a raw s in
    (
      s',
      (Bus.read_from_address bus a r.depth s').1,
      rw (w, o, known, more) refl,
      rw (o, known, more)
          (ap (λ l. ok (many l, (Bus.read_from_address bus a r.depth s').1)) read_back),
    )
  where
    more : r.depth == 1 ≡ false
    more = ground arith

    same_length : length (map (from_python r.spec) (ordered r.reverse_order vs)) ≡ r.depth
    same_length =
        length-map (ordered r.reverse_order vs) (from_python r.spec)
        ∙ length-ordered r.reverse_order vs
        ∙ sym size

    stored_raw :
        (Bus.read_from_address bus a r.depth
          (Bus.write_to_address bus a (map (from_python r.spec) (ordered r.reverse_order vs)) s)).0
        ≡ map (from_python r.spec) (ordered r.reverse_order vs)
    stored_raw = keeps (map (from_python r.spec) (ordered r.reverse_order vs)) same_length (
        All-RawInRange r.spec (ordered r.reverse_order vs)
          (All-ordered (InRange r.spec) r.reverse_order vs fits))

    read_back :
        map (to_python r.spec) (
          ordered r.reverse_order
            (Bus.read_from_address bus a r.depth (
              Bus.write_to_address bus a
                (map (from_python r.spec) (ordered r.reverse_order vs))
                s)).0)
        ≡ vs
    read_back =
        ap (λ l. map (to_python r.spec) (ordered r.reverse_order l)) stored_raw
        ∙ ap (map (to_python r.spec)) (ordered_twice r.reverse_order (from_python r.spec) vs)
        ∙ map-to-from r.spec vs fits

read_one_of :
    {S : Type 0} (bus : Bus ℤ S) (ram : ℕ → ℕ → S → List ℤ × S) (m : CsrMap) (r : Spec) (x : ℤ)
    (p : List ℤ × S)
    → p.0 ≡ x ∷ []
    → read_one bus ram m r (some p) ≡ ok (one (to_python r x), p.1)
unfolding read_one
read_one_of bus ram m r x (vs, s) h = rw (h) refl

-- A register that can be set, of one value, gives back the value that it was set to, if its name is
-- known, the value is in its range, and its address, as it is then, keeps one word that fits.
pub single_round_trip :
    {S : Type 0} (bus : Bus ℤ S) (ram : ℕ → ℕ → S → List ℤ × S) (m : CsrMap) (r : Attributes)
    (i : Instance) (a : ℕ) (v : ℤ) (s : S)
    → r.readonly ≡ false
    → r.ram_offset ≡ none
    → name_to_address m (register_full_name i r.reg_name) ≡ some a
    → Keeps bus r.spec a 1 s
    → InRange r.spec v
    → r.depth ≡ 1
    → (s' : S) × (s'' : S) × (set_register bus ram m r i (one v) s ≡ ok s')
      × (get_register bus ram m r i s' ≡ ok (one v, s''))
unfolding set_register get_register read_array write_array name_to_address
single_round_trip bus ram m r i a v s w o known keeps fits size =
    let raw : List ℤ = from_python r.spec v ∷ [] in
    let s' : _ = Bus.write_to_address bus a raw s in
    (
      s',
      (Bus.read_from_address bus a 1 s').1,
      rw (w, o, known, single) refl,
      rw (o, known, single)
          (read_one_of bus ram m r.spec (from_python r.spec v) (Bus.read_from_address bus a 1 s')
              (keeps raw refl (from_python-RawInRange r.spec v fits, tt))
            ∙ ap (λ x. ok (one x, (Bus.read_from_address bus a 1 s').1))
                (raw_in_range r.spec v fits.0 fits.1).1),
    )
  where
    single : r.depth == 1 ≡ true
    single = ground arith

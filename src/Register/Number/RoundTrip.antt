-- ===== src/Register/Number/RoundTrip.antt =====
-- Integers that go to a number register and come back.
use mathlib.Core.Path.{subst}
use pypga.Base.{
  ℕ, ◌+◌, ◌-◌, ◌^◌, ◌≤◌, ◌<◌, ◌≡◌, ap, sym, ◌∙◌, Bool, true, false, Bool-cases, ◌⊎◌, inl, inr, ◌&&◌,
  arith, if◌then◌else◌, Option, none, some,
}
use pypga.Base.Circuit.{two-pow-pred, two-pow-pos}
use pypga.Base.Int.{
  ℤ, pos, pos_part, neg_part, ◌+ℤ◌, ◌-ℤ◌, ◌≤ℤ◌, ◌<ℤ◌, leb_ℤ, ltb_ℤ, +ℤ_zero, -ℤ_zero,
}
use pypga.Register.{Spec, shifted}
use pypga.Register.Raw
use pypga.Register.Number.{
  int_min, int_max, clip, complement, to_python, from_python, before_from_python, above_max,
  below_min, or_value,
}

-- The integers that a register of this width and signedness represents.
abbrev pub Represents : Spec → ℤ → Type 0
Represents r v = (int_min r ≤ℤ v) × (v ≤ℤ int_max r)

-- Reading the two's complement.
abbrev decoded : Spec → ℤ → ℤ
decoded r v = if r.signed && leb_ℤ (shifted (r.width - 1)) v then v -ℤ shifted r.width else v

-- An integer of so many bits, with the sign or without.
abbrev pub OfWidth : Bool → ℕ → ℤ → Type 0
OfWidth true w v = (neg_part v ≤ 2 ^ (w - 1)) × (pos_part v < 2 ^ (w - 1))
OfWidth false w v = (neg_part v ≡ 0) × (pos_part v < 2 ^ w)

abbrev pub AtLeast : Option ℤ → ℤ → Type 0
AtLeast none v = Unit
AtLeast (some m) v = m ≤ℤ v

abbrev pub AtMost : Option ℤ → ℤ → Type 0
AtMost none v = Unit
AtMost (some m) v = v ≤ℤ m

abbrev pub Allowed : Spec → ℤ → Type 0
Allowed r v = OfWidth r.signed r.width v × AtLeast r.min v × AtMost r.max v

abbrev pub distance : ℤ → ℤ → ℕ
distance u v =
    (pos_part u + neg_part v - (pos_part v + neg_part u))
    + (pos_part v + neg_part u - (pos_part u + neg_part v))

abbrev limited : Option ℤ → Option ℤ → ℤ → ℤ
unfolding above_max below_min or_value
limited low high v =
    if above_max high v then or_value high v else if below_min low v then or_value low v else v

abbrev between : ℤ → ℤ → ℤ → ℤ
between low high v = if ltb_ℤ v low then low else if ltb_ℤ high v then high else v

-- An integer on the way from one to another.
abbrev Toward : ℤ → ℤ → ℤ → Type 0
Toward v u z = ((v ≤ℤ z) × (z ≤ℤ u)) ⊎ ((u ≤ℤ z) × (z ≤ℤ v))

limited-Toward :
    (mn mx : Option ℤ) (v u : ℤ)
    → AtLeast mn u
    → AtMost mx u
    → Toward v u (limited mn mx v) × AtLeast mn (limited mn mx v) × AtMost mx (limited mn mx v)
unfolding above_max below_min or_value
limited-Toward none none v u c d = ground arith
limited-Toward (some m) none v u c d = ground arith
limited-Toward none (some n) v u c d = ground arith
limited-Toward (some m) (some n) v u c d = elim (Bool-cases (ltb_ℤ n v)) [
  | inl t ↦ rw t (inr (d, ground arith), omega arith, omega arith)
  | inr f ↦ elim (Bool-cases (ltb_ℤ v m)) [
    | inl t ↦ rw (f, t) (inl (ground arith, c), omega arith, omega arith)
    | inr g ↦ rw (f, g) (toward_self v u, ground arith, ground arith)
  ]
]
  where
    toward_self : (v u : ℤ) → Toward v u v
    toward_self v u = ground arith

between-Toward :
    (low high v u : ℤ)
    → low ≤ℤ u
    → u ≤ℤ high
    → Toward v u (between low high v) × (low ≤ℤ between low high v) × (between low high v ≤ℤ high)
between-Toward low high v u a b = elim (Bool-cases (ltb_ℤ v low)) [
  | inl t ↦ rw t (inl (ground arith, a), omega arith, omega arith)
  | inr f ↦ elim (Bool-cases (ltb_ℤ high v)) [
    | inl t ↦ rw (f, t) (inr (b, ground arith), omega arith, omega arith)
    | inr g ↦ rw (f, g) (ground arith, ground arith, ground arith)
  ]
]

AtLeast-Toward : (m : Option ℤ) (v u z : ℤ) → AtLeast m v → AtLeast m u → Toward v u z → AtLeast m z
AtLeast-Toward none v u z a b t = tt
AtLeast-Toward (some m) v u z a b (inl t) = omega (arith, t.0)
AtLeast-Toward (some m) v u z a b (inr t) = omega (arith, t.0)

AtMost-Toward : (m : Option ℤ) (v u z : ℤ) → AtMost m v → AtMost m u → Toward v u z → AtMost m z
AtMost-Toward none v u z a b t = tt
AtMost-Toward (some m) v u z a b (inl t) = omega (arith, t.1)
AtMost-Toward (some m) v u z a b (inr t) = omega (arith, t.1)

distance-Toward : (v u z y : ℤ) → Toward v u z → Toward z u y → distance v y ≤ distance v u
distance-Toward v u z y (inl t) (inl s) = omega (arith, t.0, t.1, s.0, s.1)
distance-Toward v u z y (inl t) (inr s) = omega (arith, t.0, t.1, s.0, s.1)
distance-Toward v u z y (inr t) (inl s) = omega (arith, t.0, t.1, s.0, s.1)
distance-Toward v u z y (inr t) (inr s) = omega (arith, t.0, t.1, s.0, s.1)

limited-Nearest :
    (low high : ℤ) (mn mx : Option ℤ) (v u : ℤ)
    → low ≤ℤ u
    → u ≤ℤ high
    → AtLeast mn u
    → AtMost mx u
    → let y : ℤ = between low high (limited mn mx v) in
      (low ≤ℤ y) × (y ≤ℤ high) × AtLeast mn y × AtMost mx y × (distance v y ≤ distance v u)
limited-Nearest low high mn mx v u a b c d =
    let z : ℤ = limited mn mx v in
    let y : ℤ = between low high z in
    let (first, least, most) = limited-Toward mn mx v u c d in
    let (then_, l, h) = between-Toward low high z u a b in
    (
      l,
      h,
      AtLeast-Toward mn z u y least c then_,
      AtMost-Toward mx z u y most d then_,
      distance-Toward v u z y first then_,
    )

module _ (r : Spec) (wide : 1 ≤ r.width) where
  clip-Represents : (v : ℤ) → Represents r (clip r v)
  unfolding clip
  clip-Represents v = ground (arith, two-pow-pos r.width, two-pow-pos (r.width - 1))

  complement_bounds :
      (v : ℤ) → Represents r v → (pos 0 ≤ℤ complement r v) × (complement r v <ℤ shifted r.width)
  unfolding complement int_min int_max ◌+ℤ◌
  complement_bounds v h =
      ground (arith, two-pow-pred r.width wide, two-pow-pos r.width, two-pow-pos (r.width - 1))

  decoded-complement : (v : ℤ) → Represents r v → decoded r (complement r v) ≡ v
  unfolding complement int_min int_max ◌+ℤ◌ ◌-ℤ◌
  decoded-complement v h =
      ground (arith, two-pow-pred r.width wide, two-pow-pos r.width, two-pow-pos (r.width - 1))

  complement-decoded :
      (n : ℕ)
      → n < 2 ^ r.width
      → Represents r (decoded r (pos n)) × (complement r (decoded r (pos n)) ≡ pos n)
  unfolding complement int_min int_max ◌+ℤ◌ ◌-ℤ◌
  complement-decoded n fits =
      ground (arith, two-pow-pred r.width wide, two-pow-pos r.width, two-pow-pos (r.width - 1))

  clip_self : (v : ℤ) → Represents r v → clip r v ≡ v
  unfolding clip
  clip_self v h = ground arith

  represents_lem : (v : ℤ) → OfWidth r.signed r.width v → Represents r v
  unfolding int_min int_max
  represents_lem v h = elim (Bool-cases r.signed) [
    | inl t ↦ ground (arith, two-pow-pos (r.width - 1))
    | inr f ↦ ground (arith, two-pow-pos r.width)
  ]

  of_width_lem : (v : ℤ) → Represents r v → OfWidth r.signed r.width v
  unfolding int_min int_max
  of_width_lem v h = elim (Bool-cases r.signed) [
    | inl t ↦ ground (arith, two-pow-pos (r.width - 1))
    | inr f ↦ ground (arith, two-pow-pos r.width)
  ]

  clip-Nearest :
      (v u : ℤ)
      → Allowed r u
      → Allowed r (clip r (before_from_python r v))
        × (distance v (clip r (before_from_python r v)) ≤ distance v u)
  unfolding clip before_from_python
  clip-Nearest v u (fits, above, below) =
      let (low, high) = represents_lem u fits in
      let (l, h, a, b, d) =
        limited-Nearest (int_min r) (int_max r) r.min r.max v u low high above below in
      ((of_width_lem _ (l, h), a, b), d)

  module _ (plain : r.from_ram ≡ false) where
    to_python-eq-decoded : (v : ℤ) → to_python r v ≡ decoded r (Raw.to_python r v)
    unfolding to_python
    to_python-eq-decoded v = rw plain

    -- An integer that the register represents reads back as it was written, if its two's complement
    -- stays inside the width when the offset is added.
    pub to_python-from_python :
        (v : ℤ)
        → Represents r v
        → pos 0 ≤ℤ complement r v +ℤ r.offset_from_python
        → complement r v +ℤ r.offset_from_python <ℤ shifted r.width
        → to_python r (from_python r v) ≡ v
    unfolding from_python
    to_python-from_python v h low high =
        to_python-eq-decoded _
        ∙ ap (λ x. decoded r (Raw.to_python r (Raw.from_python r (complement r x)))) (clip_self v h)
        ∙ ap (decoded r) (Raw.raw_in_range r (complement r v) low high).1
        ∙ decoded-complement v h

    written_lem :
        (v : ℤ)
        → r.offset_from_python ≡ pos 0
        → (pos 0 ≤ℤ from_python r v)
          × (from_python r v <ℤ shifted r.width)
          × (to_python r (from_python r v) ≡ clip r v)
    unfolding from_python
    written_lem v o =
        let inside = clip-Represents v in
        let (low, high) = complement_bounds (clip r v) inside in
        let same : complement r (clip r v) +ℤ r.offset_from_python ≡ complement r (clip r v) =
          rw o (+ℤ_zero _) in
        let (exact, back) =
          Raw.raw_in_range r (complement r (clip r v)) (rw same low) (rw same high) in
        (
          rw (exact, same) low,
          rw (exact, same) high,
          to_python-eq-decoded _ ∙ ap (decoded r) back ∙ decoded-complement (clip r v) inside,
        )

    -- Without an offset, whatever integer v is set, the raw value fits the width, and the value that
    -- is read back is allowed, by the width, the sign and the limits of the register, and no integer
    -- u that is allowed is nearer to v. Some integer has to be allowed.
    pub write-Nearest :
        (v u : ℤ)
        → r.offset_from_python ≡ pos 0
        → Allowed r u
        → let raw : ℤ = from_python r (before_from_python r v) in
          (pos 0 ≤ℤ raw)
          × (raw <ℤ shifted r.width)
          × Allowed r (to_python r raw)
          × (distance v (to_python r raw) ≤ distance v u)
    write-Nearest v u o h =
        let (low, high, back) = written_lem (before_from_python r v) o in
        let (ok, near) = clip-Nearest v u h in
        (low, high, subst (Allowed r) (sym back) ok, rw back near)

    -- Without an offset, every raw value below 2 ^ width is what its own reading is written as.
    pub from_python-to_python :
        (n : ℕ)
        → r.offset_from_python ≡ pos 0
        → n < 2 ^ r.width
        → from_python r (to_python r (pos n)) ≡ pos n
    unfolding from_python
    from_python-to_python n o fits =
        let (inside, same) = complement-decoded n fits in
        let unoffset : pos n +ℤ r.offset_from_python ≡ pos n = rw o (+ℤ_zero (pos n)) in
        let unshifted : Raw.to_python r (pos n) ≡ pos n =
          unfold Raw.to_python in rw o (-ℤ_zero (pos n)) in
        let read : to_python r (pos n) ≡ decoded r (pos n) =
          to_python-eq-decoded (pos n) ∙ ap (decoded r) unshifted in
        let back : complement r (clip r (decoded r (pos n))) ≡ pos n =
          ap (complement r) (clip_self _ inside) ∙ same in
        ap (from_python r) read
        ∙ ap (Raw.from_python r) back
        ∙ (Raw.raw_in_range r (pos n) (rw unoffset (omega arith)) (rw unoffset (omega arith))).0
        ∙ unoffset

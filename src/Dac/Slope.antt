-- ===== src/Dac/Slope.antt =====
-- The conversion of a signed value to the code of a converter with a negative slope.
use pypga.Base.{
  ℕ, zero, suc, ◌+◌, ◌-◌, ◌*◌, ◌^◌, ◌≡◌, refl, ap, ◌∙◌, Bool, true, false, not, List, [], ◌∷◌, ◌++◌,
  map, take, drop, length, arith,
}
use native.Mathlib.Nat.{two-pow-succ}
use mathlib.Core.Path.{ap₂}
use pypga.Base.Circuit.{to_ℕ, two-pow-pos}
use pypga.Base.Int.{pos, sub_ℕ, ◌-ℤ◌}
use pypga.Base.Vectors.{unsigned, signed, highest}
use pypga.Dac.{converted}

-- All bits but the highest.
abbrev flipped : List Bool → List Bool
flipped [] = []
flipped (b ∷ []) = b ∷ []
flipped (b ∷ (c ∷ x)) = not b ∷ flipped (c ∷ x)

flipped_lem :
    (n : ℕ) (x : List Bool) → length x ≡ suc n → map not (take n x) ++ drop n x ≡ flipped x
flipped_lem n [] e = absurd (omega arith)
flipped_lem zero (b ∷ []) e = refl
flipped_lem zero (b ∷ (c ∷ x)) e = absurd (omega arith)
flipped_lem (suc n) (b ∷ []) e = absurd (omega arith)
flipped_lem (suc n) (b ∷ (c ∷ x)) e = ap (λ l. not b ∷ l) (flipped_lem n (c ∷ x) (omega arith))

converted_lem : (x : List Bool) → converted x ≡ flipped x
unfolding converted
converted_lem [] = refl
converted_lem (b ∷ x) =
    ap (λ n. map not (take n (b ∷ x)) ++ drop n (b ∷ x)) {x = suc (length x) - 1} {y = length x}
      (omega arith)
    ∙ flipped_lem (length x) (b ∷ x) refl

length-flipped : (x : List Bool) → length (flipped x) ≡ length x
length-flipped [] = refl
length-flipped (b ∷ []) = refl
length-flipped (b ∷ (c ∷ x)) = ap suc (length-flipped (c ∷ x))

pub length-converted : (x : List Bool) → length (converted x) ≡ length x
length-converted x = ap length (converted_lem x) ∙ length-flipped x

highest-flipped : (x : List Bool) → highest (flipped x) ≡ highest x
highest-flipped [] = refl
highest-flipped (b ∷ []) = refl
highest-flipped (b ∷ (c ∷ [])) = refl
highest-flipped (b ∷ (c ∷ (d ∷ x))) = highest-flipped (c ∷ (d ∷ x))

not-not_lem : (b : Bool) → not (not b) ≡ b
not-not_lem true = refl
not-not_lem false = refl

flipped-flipped : (x : List Bool) → flipped (flipped x) ≡ x
flipped-flipped [] = refl
flipped-flipped (b ∷ []) = refl
flipped-flipped (b ∷ (c ∷ [])) = ground arith
flipped-flipped (b ∷ (c ∷ (d ∷ x))) = ap₂ ◌∷◌ (not-not_lem b) (flipped-flipped (c ∷ (d ∷ x)))

-- Converting twice gives the bits back.
pub converted-converted : (x : List Bool) → converted (converted x) ≡ x
converted-converted x =
    converted_lem (converted x) ∙ ap flipped (converted_lem x) ∙ flipped-flipped x

doubled :
    (n a b : ℕ) (h : Bool)
    → a + b + 1 ≡ 2 ^ n + to_ℕ h * 2 * 2 ^ n
    → 2 * a + (1 + 2 * b) + 1 ≡ 2 ^ suc n + to_ℕ h * 2 * 2 ^ suc n
doubled n a b true e = omega (arith, two-pow-succ n)
doubled n a b false e = omega (arith, two-pow-succ n)

-- The highest bit stays, and the others count down.
sum-flipped :
    (n : ℕ) (x : List Bool)
    → length x ≡ suc n
    → unsigned (flipped x) + unsigned x + 1 ≡ 2 ^ n + to_ℕ (highest x) * 2 * 2 ^ n
sum-flipped n [] e = absurd (omega arith)
sum-flipped zero (true ∷ []) e = refl
sum-flipped zero (false ∷ []) e = refl
sum-flipped zero (b ∷ (c ∷ x)) e = absurd (omega arith)
sum-flipped (suc n) (b ∷ []) e = absurd (omega arith)
sum-flipped (suc n) (true ∷ (c ∷ x)) e = omega (
  arith,
  doubled n (unsigned (flipped (c ∷ x))) (unsigned (c ∷ x)) (highest (c ∷ x))
      (sum-flipped n (c ∷ x) (omega arith)),
)
sum-flipped (suc n) (false ∷ (c ∷ x)) e = omega (
  arith,
  doubled n (unsigned (flipped (c ∷ x))) (unsigned (c ∷ x)) (highest (c ∷ x))
      (sum-flipped n (c ∷ x) (omega arith)),
)

-- The two readings of n + 1 bits, and the sum of a word and its code.
value_of_sum :
    (n u v l : ℕ) (h : Bool)
    → l ≡ suc n
    → u + v + 1 ≡ 2 ^ n + to_ℕ h * 2 * 2 ^ n
    → pos u ≡ pos (2 ^ n - 1) -ℤ elim h [ true ↦ sub_ℕ v (2 ^ l) | false ↦ pos v ]
unfolding ◌-ℤ◌
value_of_sum n u v l true e sum = rw e (ground (arith, two-pow-succ n, two-pow-pos n))
value_of_sum n u v l false e sum = ground (arith, two-pow-pos n)

code_of_sum :
    (n u v l : ℕ) (h : Bool)
    → l ≡ suc n
    → u + v + 1 ≡ 2 ^ n + to_ℕ h * 2 * 2 ^ n
    → elim h [ true ↦ sub_ℕ u (2 ^ l) | false ↦ pos u ] ≡ pos (2 ^ n - 1) -ℤ pos v
unfolding ◌-ℤ◌
code_of_sum n u v l true e sum = rw e (ground (arith, two-pow-succ n, two-pow-pos n))
code_of_sum n u v l false e sum = ground (arith, two-pow-pos n)

-- For a value v of n + 1 bits the code is 2 ^ n - 1 - v.
pub converted-value :
    (n : ℕ) (x : List Bool)
    → length x ≡ suc n
    → pos (unsigned (converted x)) ≡ pos (2 ^ n - 1) -ℤ signed x
converted-value n x e = rw (converted_lem x) (
    value_of_sum n (unsigned (flipped x)) (unsigned x) (length x) (highest x) e (sum-flipped n x e))

-- The other way round, for a code.
pub signed-converted :
    (n : ℕ) (x : List Bool)
    → length x ≡ suc n
    → signed (converted x) ≡ pos (2 ^ n - 1) -ℤ pos (unsigned x)
signed-converted n x e =
    ap signed (converted_lem x)
    ∙ ap
        (λ h. elim h [
          | true ↦ sub_ℕ (unsigned (flipped x)) (2 ^ length (flipped x))
          | false ↦ pos (unsigned (flipped x))
        ])
        (highest-flipped x)
    ∙ code_of_sum n (unsigned (flipped x)) (unsigned x) (length (flipped x)) (highest x)
        (length-flipped x ∙ e) (sum-flipped n x e)

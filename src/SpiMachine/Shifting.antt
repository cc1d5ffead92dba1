-- ===== src/SpiMachine/Shifting.antt =====
-- The bits that the shift register puts out.
use pypga.Base.{
  ℕ, zero, suc, ◌+◌, ◌-◌, ◌≤◌, ◌<◌, ◌≡◌, refl, ap, ◌∙◌, Bool, true, false, List, [], ◌∷◌, ◌++◌,
  get_or, drop, take, arith,
}
use pypga.Base.Circuit.{cycles}
use pypga.SpiMachine.{Shift, shift_step, serial}

-- `init` in one cycle and then `k` cycles with `shift`.
unfoldable pub shifted : ℕ → Bool → List Bool → ℕ → Shift → Shift
unfolding shift_step
shifted width lsb_first pdo k s =
    cycles k (shift_step width lsb_first false true pdo)
      (shift_step width lsb_first true false pdo s)

get_or-lowest :
    (xs : List Bool) (i : ℕ) → get_or (drop 1 xs ++ (false ∷ [])) i false ≡ get_or xs (suc i) false
get_or-lowest [] zero = refl
get_or-lowest [] (suc i) = refl
get_or-lowest (x ∷ []) zero = refl
get_or-lowest (x ∷ []) (suc i) = refl
get_or-lowest (x ∷ y ∷ xs) zero = refl
get_or-lowest (x ∷ y ∷ xs) (suc i) = get_or-lowest (y ∷ xs) i

get_or-take : (n i : ℕ) (xs : List Bool) → i < n → get_or (take n xs) i false ≡ get_or xs i false
get_or-take zero i xs h = absurd (omega arith)
get_or-take (suc n) i [] h = refl
get_or-take (suc n) zero (x ∷ xs) h = refl
get_or-take (suc n) (suc i) (x ∷ xs) h = get_or-take n i xs (omega arith)

bits_lsb :
    (width : ℕ) (pdo : List Bool) (s : Shift) (k i : ℕ)
    → get_or (shifted width true pdo k s).sr_current i false ≡ get_or pdo (i + k) false
unfolding shifted
bits_lsb width pdo s zero i = ap (λ j. get_or pdo j false) {x = i} {y = i + 0} (omega arith)
bits_lsb width pdo s (suc k) i =
    get_or-lowest (shifted width true pdo k s).sr_current i
    ∙ bits_lsb width pdo s k (suc i)
    ∙ ap (λ j. get_or pdo j false) {x = suc i + k} {y = i + suc k} (omega arith)

bits_msb :
    (width : ℕ) (pdo : List Bool) (s : Shift) (k i : ℕ)
    → k ≤ i
    → i < width
    → get_or (shifted width false pdo k s).sr_current i false ≡ get_or pdo (i - k) false
unfolding shifted
bits_msb width pdo s zero i h l = ap (λ j. get_or pdo j false) {x = i} {y = i - 0} (omega arith)
bits_msb width pdo s (suc k) zero h l = absurd (omega arith)
bits_msb width pdo s (suc k) (suc i) h l =
    get_or-take (width - 1) i (shifted width false pdo k s).sr_current (omega arith)
    ∙ bits_msb width pdo s k i (omega arith) (omega arith)
    ∙ ap (λ j. get_or pdo j false) {x = i - k} {y = suc i - suc k} (omega arith)

sdo-serial :
    (width : ℕ) (lsb_first : Bool) (pdo : List Bool) (k : ℕ) (s : Shift)
    → (shifted width lsb_first pdo k s).sdo
      ≡ serial width lsb_first (shifted width lsb_first pdo k s).sr_current
unfolding shifted
sdo-serial width lsb_first pdo zero s = refl
sdo-serial width lsb_first pdo (suc k) s = refl

-- After an `init` and k < width shifts, whatever the registers held, the serial output is bit k of
-- the parallel data, counted from the low end if the low bit goes first and from the high end
-- otherwise.
pub sdo-shifted :
    (width : ℕ) (pdo : List Bool) (k : ℕ) (s : Shift)
    → k < width
    → ((shifted width true pdo k s).sdo ≡ get_or pdo k false)
      × ((shifted width false pdo k s).sdo ≡ get_or pdo (width - 1 - k) false)
sdo-shifted width pdo k s h = (
  sdo-serial width true pdo k s
      ∙ bits_lsb width pdo s k 0
      ∙ ap (λ j. get_or pdo j false) {x = 0 + k} {y = k} (omega arith),
  sdo-serial width false pdo k s ∙ bits_msb width pdo s k (width - 1) (omega arith) (omega arith),
)

-- ===== src/Connection/Tests.antt =====
-- A socket that hands over at most five bytes at a time.
use pypga.Base.{
  ℕ, ◌≡◌, refl, true, false, if◌then◌else◌, List, [], ◌∷◌, some, take, drop, Option, none,
  replicate, arith,
}
use Prim.Native.Nat.{min}
use pypga.Client.{same_bytes}
use pypga.Connection.{
  Started, connected, wrong_token, confirmation, start, authenticate, check_acknowledgement,
}
use pypga.Connection.Token.{Delivers, start-ends, start-authenticate}
use pypga.Connection.Clearing.{Clears, check_acknowledgement-clears}

abbrev slow : ℕ → List ℕ → List ℕ × List ℕ
slow limit stream = (take (min limit 5) stream, drop (min limit 5) stream)

abbrev whole_stream : List ℕ → List ℕ
whole_stream stream = stream

slow-Delivers : Delivers whole_stream slow
slow-Delivers limit stream some_ = (min limit 5, omega arith, (λ h. omega arith), refl, refl)

abbrev token : List ℕ
token = replicate 32 7

token_distinct : same_bytes token confirmation ≡ false
unfolding same_bytes
token_distinct = refl

abbrev other : List ℕ
other = replicate 32 8

wrong_lem : token ≡ (authenticate token other).0
unfolding authenticate same_bytes
wrong_lem = refl

start-ends_example : (r : Started × List ℕ) × (start slow 32 [] ≡ some r)
start-ends_example = start-ends slow []

start-authenticate_example :
    (t : List ℕ) × (start slow 32 token
      ≡ some (if (authenticate token other).1 then connected else wrong_token token, t))
start-authenticate_example =
    start-authenticate slow whole_stream slow-Delivers token other token refl refl token_distinct
      wrong_lem

-- The connection stays open: with nothing on the way there is the time-out.
abbrev open_slow : ℕ → List ℕ → Option (List ℕ) × List ℕ
open_slow limit [] = (none, [])
open_slow limit (b ∷ bs) = (some (take (min limit 5) (b ∷ bs)), drop (min limit 5) (b ∷ bs))

open_slow-Clears : Clears whole_stream open_slow
open_slow-Clears limit [] h = (refl, refl)
open_slow-Clears limit (b ∷ bs) h = (min limit 5, omega arith, (λ some_. omega arith), refl, refl)

check_acknowledgement-clears_example :
    ((check_acknowledgement open_slow (1 ∷ []) (2 ∷ []) (3 ∷ 4 ∷ [])).0
      ≡ same_bytes (2 ∷ []) (1 ∷ []))
    × (same_bytes (2 ∷ []) (1 ∷ []) ≡ true
        → (check_acknowledgement open_slow (1 ∷ []) (2 ∷ []) (3 ∷ 4 ∷ [])).1 ≡ 3 ∷ 4 ∷ [])
    × (same_bytes (2 ∷ []) (1 ∷ []) ≡ false
        → whole_stream (check_acknowledgement open_slow (1 ∷ []) (2 ∷ []) (3 ∷ 4 ∷ [])).1 ≡ [])
check_acknowledgement-clears_example =
    check_acknowledgement-clears open_slow whole_stream open_slow-Clears (1 ∷ []) (2 ∷ [])
      (3 ∷ 4 ∷ []) (omega arith)

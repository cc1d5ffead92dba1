-- ===== src/Shell/Tests.antt =====
-- A channel of five characters at a time, and a reply with one address.
use pypga.Base.{ℕ, ◌≡◌, refl, Bool, List, [], ◌∷◌, none, some, take, drop, length, arith, ltb}
use Prim.Native.Nat.{min}
use pypga.Instance.{Name}
use pypga.Connection.Token.{Delivers}
use pypga.Client.{is_empty}
use pypga.Shell.{
  read_loop, read_nbytes, decode_utf8, decode_from, decode_byte, read, get_mac_addresses, hw_addr,
  link_ether, no_names, fields, scan_tokens,
}
use pypga.Csr.{same_name}
use pypga.Shell.Reading.{read-all}

abbrev slow : ℕ → List ℕ → List ℕ × List ℕ
slow limit stream = (take (min limit 5) stream, drop (min limit 5) stream)

abbrev all_text : List ℕ → List ℕ
all_text stream = stream

abbrev some_text : List ℕ → Bool
some_text stream = ltb 0 (length stream)

slow-Delivers : Delivers all_text slow
slow-Delivers limit stream some_ = (min limit 5, omega arith, (λ h. omega arith), refl, refl)

read-all_example :
    (t : List ℕ) × (read some_text slow 8 (1 ∷ 2 ∷ 3 ∷ 4 ∷ 5 ∷ 6 ∷ 7 ∷ [])
      ≡ some (some (1 ∷ 2 ∷ 3 ∷ 4 ∷ 5 ∷ 6 ∷ 7 ∷ []), t))
    × (t ≡ [])
read-all_example =
    read-all some_text slow all_text slow-Delivers (λ s. refl) (1 ∷ 2 ∷ 3 ∷ 4 ∷ 5 ∷ 6 ∷ 7 ∷ [])
      (ground arith)

-- The euro sign has three bytes, which a piece of five characters may cut.
euro : decode_utf8 (226 ∷ 130 ∷ 172 ∷ []) ≡ some (8364 ∷ [])
unfolding decode_utf8 decode_from decode_byte
euro = refl

cut_euro :
    read some_text slow 8 (1 ∷ 2 ∷ 3 ∷ 4 ∷ 226 ∷ 130 ∷ 172 ∷ []) ≡ some (none, 130 ∷ 172 ∷ [])
unfolding read_loop read_nbytes is_empty decode_utf8 decode_from decode_byte
cut_euro = refl

-- `a:b:c:d:e:f`
abbrev address : Name
address = b'a' ∷ b':' ∷ b'b' ∷ b':' ∷ b'c' ∷ b':' ∷ b'd' ∷ b':' ∷ b'e' ∷ b':' ∷ b'f' ∷ []

abbrev reply : List Name
reply = address ∷ link_ether ∷ address ∷ hw_addr ∷ []

found : get_mac_addresses (hw_addr ∷ []) reply ≡ address ∷ []
unfolding get_mac_addresses no_names fields scan_tokens same_name
found = refl

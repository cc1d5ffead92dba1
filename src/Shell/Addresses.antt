-- ===== src/Shell/Addresses.antt =====
-- The addresses are the words behind a marker.
use pypga.Base.{
  ◌≡◌, refl, sym, ap, ◌∙◌, false, ◌&&◌, ◌==◌, Bool-cases, ◌⊎◌, inl, inr, if◌then◌else◌, List, [],
  ◌∷◌, ◌++◌,
}
use mathlib.Core.List.{append-nil, append_assoc}
use pypga.Csr.{same_name}
use pypga.Instance.{Name}
use pypga.Shell.{hw_addr, link_ether, scan_tokens, fields, no_names, get_mac_addresses}

-- The words that stand directly behind the marker and have six fields.
abbrev pub behind : Name → List Name → List Name
behind marker [] = []
behind marker (a ∷ []) = []
behind marker (a ∷ (b ∷ tokens)) =
    if same_name a marker && fields b == 6
    then b ∷ behind marker (b ∷ tokens)
    else behind marker (b ∷ tokens)

scan-behind :
    (marker a : Name) (macs tokens : List Name)
    → scan_tokens marker (same_name a marker) macs tokens ≡ macs ++ behind marker (a ∷ tokens)
unfolding scan_tokens
scan-behind marker a macs [] = sym (append-nil macs)
scan-behind marker a macs (b ∷ tokens) = elim (Bool-cases (same_name a marker && fields b == 6)) [
  | inl good ↦ rw good (
      scan-behind marker b (macs ++ (b ∷ [])) tokens
      ∙ append_assoc macs (b ∷ []) (behind marker (b ∷ tokens)))
  | inr bad ↦ rw bad (scan-behind marker b macs tokens)
]

not_hw : same_name [] hw_addr ≡ false
unfolding same_name
not_hw = refl

not_link : same_name [] link_ether ≡ false
unfolding same_name
not_link = refl

none-cases : (l : List Name) → (l ≡ []) ⊎ (no_names l ≡ false)
unfolding no_names
none-cases [] = inl refl
none-cases (n ∷ ns) = inr refl

-- Before the first word nothing is good.
scan-eq-behind :
    (marker : Name) (tokens : List Name)
    → same_name [] marker ≡ false
    → scan_tokens marker false [] tokens ≡ behind marker tokens
scan-eq-behind marker tokens h =
    ap (λ good. scan_tokens marker good [] tokens) (sym h)
    ∙ scan-behind marker [] [] tokens
    ∙ no_marker tokens
  where
    no_marker : (ts : List Name) → behind marker ([] ∷ ts) ≡ behind marker ts
    no_marker [] = refl
    no_marker (b ∷ ts) = rw h refl

-- The addresses are the words of six fields that stand directly behind `HWaddr` in the first reply,
-- in their order, or if there are none, those behind `link/ether` in the second.
pub get_mac_addresses-behind :
    (ifconfig ip_address : List Name)
    → get_mac_addresses ifconfig ip_address ≡ (
        if no_names (behind hw_addr ifconfig)
        then behind link_ether ip_address
        else behind hw_addr ifconfig)
unfolding get_mac_addresses
get_mac_addresses-behind ifconfig ip_address =
    rw (scan-eq-behind hw_addr ifconfig not_hw) (elim (none-cases (behind hw_addr ifconfig)) [
      | inl empty_ ↦ rw empty_ (scan-eq-behind link_ether ip_address not_link)
      | inr some_ ↦ rw some_ refl
    ])

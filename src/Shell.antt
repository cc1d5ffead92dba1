-- ===== src/Shell.antt =====
-- pypga/core/interface/remote/sshshell.py, class SshShell: how the text that the shell of the board
-- has ready is read, and how the MAC addresses are found in it. The channel of the SSH library is a
-- parameter: the bytes that one `recv` takes, for the most that it may take. A text is the list of its
-- code points, and a reply to a command is taken as its words, as `split` gives them.
pub mod Reading
pub mod Addresses
mod Tests
use pypga.Base.{
  ℕ, zero, suc, ◌+◌, ◌-◌, ◌*◌, ltb, leb, Bool, true, false, ◌&&◌, ◌==◌, if◌then◌else◌, List, [],
  ◌∷◌, ◌++◌, Option, none, some,
}
use pypga.Base.Options.{◌>>=◌, map_option}
use pypga.Client.{is_empty}
use pypga.Csr.{same_name}
use pypga.Instance.{Name}

-- A character of UTF-8 that has begun: how many bytes are to come, the range of the next one, and
-- the bits so far.
pub record Partial : Type 0 where
  pub need : ℕ
  pub low : ℕ
  pub high : ℕ
  pub code : ℕ

abbrev pub between_characters : Partial
between_characters = record { need = 0; low = 0; high = 0; code = 0 }

abbrev pub within : ℕ → ℕ → ℕ → Bool
within low high b = leb low b && leb b high

-- The first byte of a character of several bytes; the ranges leave out what has a shorter form, the
-- surrogates, and what is beyond the last code point.
abbrev pub lead : ℕ → Option Partial
lead b =
    if within 194 223 b
    then some (record { need = 1; low = 128; high = 191; code = b - 192 })
    else if within 224 239 b
    then some (record {
      need = 2;
      low = if b == 224 then 160 else 128;
      high = if b == 237 then 159 else 191;
      code = b - 224;
    })
    else if within 240 244 b
    then some (record {
      need = 3;
      low = if b == 240 then 144 else 128;
      high = if b == 244 then 143 else 191;
      code = b - 240;
    })
    else none

-- A byte, and the characters that it completes.
unfoldable pub decode_byte : Partial → ℕ → Option (List ℕ × Partial)
decode_byte p b =
    if p.need == 0
    then (if ltb b 128 then some (b ∷ [], between_characters) else (lead b >>= λ q. some ([], q)))
    else (if within p.low p.high b
        then (let code = p.code * 64 + (b - 128) in
            if p.need == 1
            then some (code ∷ [], between_characters)
            else some ([], record { need = p.need - 1; low = 128; high = 191; code = code }))
        else none)

unfoldable pub decode_from : Partial → List ℕ → Option (List ℕ)
unfolding decode_byte
decode_from p [] = if p.need == 0 then some [] else none
decode_from p (b ∷ bs) =
    decode_byte p b >>= λ r. map_option (λ text. r.0 ++ text) (decode_from r.1 bs)

-- `decode("utf-8")`; `none` is the `UnicodeDecodeError`.
unfoldable pub decode_utf8 : List ℕ → Option (List ℕ)
unfolding decode_from
decode_utf8 bytes = decode_from between_characters bytes

module _ {S : Type 0} (recv_ready : S → Bool) (recv : ℕ → S → List ℕ × S) where
  unfoldable pub read_nbytes : ℕ → S → List ℕ × S
  read_nbytes nbytes s = if recv_ready s then recv nbytes s else ([], s)

  -- A round of the loop, for the text of its piece and the rounds behind it.
  abbrev pub read_piece :
      Option (List ℕ)
      → List ℕ
      → S
      → (List ℕ → Option (Option (List ℕ) × S))
      → Option (Option (List ℕ) × S)
  read_piece none sumstring t go_on = some (none, t)
  read_piece (some text) sumstring t go_on =
      if is_empty text then some (some (sumstring ++ text), t) else go_on text

  -- `read`, in so many rounds of its loop, with `sumstring`; `none` when they do not suffice, and
  -- `none` as the text is the `UnicodeDecodeError` of a piece.
  unfoldable pub read_loop : ℕ → List ℕ → S → Option (Option (List ℕ) × S)
  unfolding read_nbytes is_empty decode_utf8
  read_loop zero sumstring s = none
  read_loop (suc rounds) sumstring s =
      let new = read_nbytes 1024 s in
      read_piece (decode_utf8 new.0) sumstring new.1
        (λ text. read_loop rounds (sumstring ++ text) new.1)

  abbrev pub read : ℕ → S → Option (Option (List ℕ) × S)
  read rounds s = read_loop rounds [] s

-- The fields of `token.split(":")`.
unfoldable pub fields : Name → ℕ
fields [] = 1
fields (c ∷ cs) = let rest = fields cs in if c == b':' then suc rest else rest

-- The loop over the words of a reply, with `nextgood` and `macs`.
unfoldable pub scan_tokens : Name → Bool → List Name → List Name → List Name
unfolding fields same_name
scan_tokens marker nextgood macs [] = macs
scan_tokens marker nextgood macs (token ∷ tokens) =
    scan_tokens marker (same_name token marker)
      (if nextgood && fields token == 6 then macs ++ (token ∷ []) else macs) tokens

unfoldable pub no_names : List Name → Bool
no_names [] = true
no_names (n ∷ ns) = false

abbrev pub hw_addr : Name
hw_addr = b'H' ∷ b'W' ∷ b'a' ∷ b'd' ∷ b'd' ∷ b'r' ∷ []

abbrev pub link_ether : Name
link_ether = b'l' ∷ b'i' ∷ b'n' ∷ b'k' ∷ b'/' ∷ b'e' ∷ b't' ∷ b'h' ∷ b'e' ∷ b'r' ∷ []

-- `get_mac_addresses`, for the words of the reply to `ifconfig` and of the one to `ip address`,
-- which is asked for only when the first has no address.
unfoldable pub get_mac_addresses : List Name → List Name → List Name
unfolding scan_tokens no_names
get_mac_addresses ifconfig ip_address =
    let macs : List Name = scan_tokens hw_addr false [] ifconfig in
    if no_names macs then scan_tokens link_ether false macs ip_address else macs

-- ===== src/Mux.antt =====
-- pypga/modules/migen/mux.py and pypga/modules/mux.py: a multiplexer, and the register that selects
-- one of its named inputs.
pub mod Select
mod Tests
use pypga.Base.{
  ℕ, zero, suc, ◌+◌, Bool, true, false, if◌then◌else◌, ltb, List, [], ◌∷◌, map, Option, none, some,
  length, get_elem?,
}
use pypga.Base.Circuit.{wrap}
use pypga.Base.Options.{map_option}
use pypga.Common.{Value, bit_length, get_length}
use pypga.Instance.{Name}
use pypga.Csr.{same_name}

-- `max([get_length(signal) for signal in options])`; none is the `ValueError` of no options.
longest : ℕ → List ℕ → ℕ
longest m [] = m
longest m (n ∷ ns) = longest (if ltb m n then n else m) ns

unfoldable pub mux_width : Option ℕ → List Value → Option ℕ
unfolding longest
mux_width (some width) options = some width
mux_width none [] = none
mux_width none (o ∷ os) = some (longest (get_length o) (map get_length os))

-- `Case(select, ...)` with its default, by the values that the options have.
case_of : ℕ → List ℕ → ℕ → ℕ
case_of default_ [] select = default_
case_of default_ (o ∷ os) zero = o
case_of default_ (o ∷ os) (suc n) = case_of default_ os n

unfoldable pub out : ℕ → ℕ → List ℕ → ℕ → ℕ
unfolding case_of
out width default_ options select = wrap width (case_of default_ options select)

-- `options.index(option)`; `none` is the `ValueError`.
unfoldable pub index_of : Name → List Name → Option ℕ
unfolding same_name
index_of option [] = none
index_of option (o ∷ os) =
    let rest = index_of option os in if same_name o option then some 0 else map_option suc rest

-- The width of the register `_select`.
unfoldable pub select_width : List Name → ℕ
select_width options = bit_length (length options)

-- The setter of `select`: what the register `_select` holds then.
unfoldable pub set_select : List Name → Name → Option ℕ
unfolding index_of
set_select options option = map_option (wrap (select_width options)) (index_of option options)

-- The getter; `none` is the `IndexError`.
unfoldable pub get_select : List Name → ℕ → Option Name
get_select options register = get_elem? options register

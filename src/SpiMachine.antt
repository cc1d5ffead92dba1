-- ===== src/SpiMachine.antt =====
-- pypga/modules/migen/spimachine.py: the clock generator, the shift register and the state machine
-- that steps through an SPI transmission.
pub mod Handshake
pub mod Shifting
pub mod Timing
pub mod Transfer
mod Tests
use pypga.Base.{
  ℕ, zero, suc, ◌+◌, ◌-◌, Bool, true, false, ◌&&◌, ◌||◌, if◌then◌else◌, not, ◌==◌, ltb, List, [],
  ◌∷◌, ◌++◌, get_or, drop, take,
}
use pypga.Base.Int.{pos}
use pypga.Base.Circuit.{wrap, wrap_sub, to_ℕ}
use pypga.Common.{int, get_length}

-- The arguments of `SPIMachine`, as Python integers.
pub record Config : Type 0 where
  pub data_width : ℕ
  pub clock_div : ℕ
  pub leading_halfcycles : ℕ
  pub trailing_halfcycles : ℕ
  pub idle_halfcycles : ℕ

-- ClockGen: the state of its FSM and its counter.
pub data GenFsm : Type 0 where
  gen_idle counting : GenFsm

pub record ClockGen : Type 0 where
  pub fsm : GenFsm
  pub counter : ℕ

-- `done`, from the `start` of the cycle.
abbrev pub done : Bool → ClockGen → Bool
done start g = g.counter == 0 && not start

abbrev pub gen_width : Config → ℕ
gen_width c = get_length (int (pos c.clock_div))

gen_next : Config → Bool → ClockGen → GenFsm → ClockGen
gen_next c start g gen_idle =
    if start then record { fsm = counting; counter = wrap_sub (gen_width c) c.clock_div 1 } else g
gen_next c start g counting =
    if done start g
    then record g { fsm = gen_idle }
    else record g { counter = wrap_sub (gen_width c) g.counter 1 }

gen_step : Config → Bool → ClockGen → ClockGen
unfolding gen_next
gen_step c start g = gen_next c start g g.fsm

-- Register: the bits of `sr_current`, the lowest first, and the serial output.
pub record Shift : Type 0 where
  pub sr_current : List Bool
  pub sdo : Bool

-- The bit that goes out: the lowest, or the highest of `width` bits.
abbrev pub serial : ℕ → Bool → List Bool → Bool
serial width lsb_first bits =
    if lsb_first then get_or bits 0 false else get_or bits (width - 1) false

-- `sr_next`
abbrev pub sr_next : ℕ → Bool → List Bool → List Bool
sr_next width lsb_first bits =
    if lsb_first then drop 1 bits ++ (false ∷ []) else false ∷ take (width - 1) bits

load : ℕ → Bool → Bool → List Bool → Shift → Shift
load width lsb_first init pdo s =
    if init then record { sr_current = pdo; sdo = serial width lsb_first pdo } else s

-- One clock edge; the assignment of `shift` comes last and reads the old bits.
unfoldable pub shift_step : ℕ → Bool → Bool → Bool → List Bool → Shift → Shift
unfolding load
shift_step width lsb_first init shift pdo s =
    let next = sr_next width lsb_first s.sr_current in
    if shift
    then record { sr_current = next; sdo = serial width lsb_first next }
    else load width lsb_first init pdo s

pub data Fsm : Type 0 where
  idle leading first second trailing idling : Fsm

pub record State : Type 0 where
  pub fsm : Fsm
  pub counter : ℕ
  pub start : Bool
  pub cg : ClockGen
  pub reg : Shift

-- The signals that the surrounding module drives.
pub record Input : Type 0 where
  pub begin : Bool
  pub clk_phase : Bool
  pub lsb_first : Bool
  pub pdo : List Bool

larger : ℕ → ℕ → ℕ
larger a b = if ltb a b then b else a

pub counter_width : Config → ℕ
unfolding larger
counter_width c = larger (get_length (int (pos c.data_width))) (
    larger (get_length (int (pos c.leading_halfcycles))) (
      larger (get_length (int (pos c.trailing_halfcycles)))
        (get_length (int (pos c.idle_halfcycles)))))

-- `NextValue(cg.start, ...)`, `NextValue(self.counter, ...)` and `NextState(...)` together.
goto : Config → Fsm → ℕ → Bool → State → State
goto c f n start s = record s { fsm = f; counter = wrap (counter_width c) n; start = start }

-- A half cycle that goes on.
continue_ : State → State
continue_ s = record s { start = false }

-- The end of a half cycle of the leading, trailing and idle states, and of the second half of a
-- bit.
countdown : Config → Fsm → State → State
unfolding goto
countdown c f s = record s {
  fsm = f;
  counter = wrap_sub (counter_width c) s.counter 1;
  start = ltb 1 s.counter;
}

-- The registers of the state machine after a clock edge, those of its two submodules aside.
control : Config → Input → State → Fsm → State
unfolding goto continue_ countdown
control c i s idle =
    if i.begin
    then if i.clk_phase
      then goto c leading (c.leading_halfcycles + to_ℕ (c.leading_halfcycles == 0)) true s
      else goto c leading c.leading_halfcycles (ltb 0 c.leading_halfcycles) s
    else record s { start = false }
control c i s leading =
    if s.counter == 0
    then goto c first c.data_width true s
    else if done s.start s.cg
    then countdown c leading s
    else continue_ s
control c i s first =
    if s.counter == 0
    then goto c trailing c.trailing_halfcycles (ltb 0 c.trailing_halfcycles) s
    else if done s.start s.cg
    then record s { fsm = second; start = true }
    else continue_ s
control c i s second = if done s.start s.cg then countdown c first s else continue_ s
control c i s trailing =
    if s.counter == 0
    then goto c idling c.idle_halfcycles (ltb 0 c.idle_halfcycles) s
    else if done s.start s.cg
    then countdown c trailing s
    else continue_ s
control c i s idling =
    if s.counter == 0
    then record s { fsm = idle; start = false }
    else if done s.start s.cg
    then countdown c idling s
    else continue_ s

-- `reg.init` and `reg.shift` in a cycle.
init_signal : State → Fsm → Bool
init_signal s leading = s.counter == 0
init_signal s f = false

shift_signal : State → Fsm → Bool
shift_signal s second = done s.start s.cg
shift_signal s f = false

-- One clock edge.
pub step : Config → Input → State → State
unfolding control init_signal shift_signal gen_step shift_step
step c i s =
    let t : State = control c i s s.fsm in
    record t {
      cg = gen_step c s.start s.cg;
      reg =
          shift_step c.data_width i.lsb_first (init_signal s s.fsm) (shift_signal s s.fsm) i.pdo
            s.reg;
    }

-- After reset; the shift register is reset-less, and starts with any bits.
unfoldable pub power_on : Shift → State
power_on r = record {
  fsm = idle;
  counter = 0;
  start = false;
  cg = record { fsm = gen_idle; counter = 0 };
  reg = r;
}

-- The combinational outputs of a cycle.
is_idle_fsm : Fsm → Bool
is_idle_fsm idle = true
is_idle_fsm f = false

pub is_idle : State → Bool
unfolding is_idle_fsm
is_idle s = is_idle_fsm s.fsm

cs_fsm : Fsm → Bool
cs_fsm idle = false
cs_fsm idling = false
cs_fsm f = true

pub cs : State → Bool
unfolding cs_fsm
cs s = cs_fsm s.fsm

clk_fsm : Bool → ℕ → Fsm → Bool
clk_fsm phase n first = phase && ltb 0 n
clk_fsm phase n second = not phase
clk_fsm phase n f = false

pub clk : Bool → State → Bool
unfolding clk_fsm
clk phase s = clk_fsm phase s.counter s.fsm

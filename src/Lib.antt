-- ===== src/Lib.antt =====
-- pypga builds FPGA designs for a measurement board from Python modules, and reads and sets the
-- registers of a running design from Python. This library models both halves: the clocked logic of
-- the modules, and the way of a value between Python and a register.
--
-- The logic. A Migen module is a record of its registers and a step for a clock edge, which takes the
-- inputs of the cycle. Statements of `self.sync` read the old state, the last assignment wins, and a
-- value is cut to the width of its signal (Base/Circuit, wrap); combinational signals are functions
-- of the state. A width that `get_length` computes is computed here as well.
--   * Common: pypga/core/common.py, the lengths of signals (Bits).
--   * PulseGen and PulseBurst: pypga/modules/migen/pulsegen.py, pulses with a period, and bursts of
--     them (Spec: the countdown that a burst refines, Timing: its cycles).
--     PulseModule: pypga/modules/pulsegen.py, the generator with its registers (Cycles).
--   * Counter: pypga/modules/migen/counter.py and pypga/modules/counter.py (Counting, Carry).
--   * SpiMachine: pypga/modules/migen/spimachine.py. `control` is the state machine, with a clause for
--     each `fsm.act`; Handshake has its invariant, Shifting the register, Timing one half cycle,
--     Transfer a whole transmission. Spi: pypga/modules/migen/spi.py, the lines around it.
--   * Daq: pypga/modules/daq.py, the logic `_daq` for unsigned data (Window).
--     Average bounds its division. Sampling is the DAQ with its pulse generator (Seen, Windows).
--     Ram is `_daq_data` for an AXI port, over AxiWriter: pypga/modules/migen/axiwriter.py (Accepted).
--   * Pid: pypga/modules/migen/pid.py; its signed signals are integers (Exact).
--   * Memory: the logic of an array register of pypga/core/register.py, with the ports of Migen's
--     Memory, which read the address of the cycle before (Cycles, Protocol); Indexed is the array as the
--     server reaches it. Awg: pypga/modules/awg.py, a Memory and a PulseBurst together (Playing).
--   * Dac, Adc and Gpio: pypga/boards/stemlab125_14/modules/dac.py, adc.py and gpio.py; their signals
--     are lists of bits, the lowest first (Base/Vectors).
--   * Mux: pypga/modules/migen/mux.py and pypga/modules/mux.py (Select).
--
-- The way of a value. An attribute of a module instance is a register with a full name (Access and
-- Instance); the name has an address in csr.csv (Csr); the client sends a request with the address to
-- the server on the board, which loads or stores (Wire, Client, Server, Remote).
--   * Register: pypga/core/register.py, the conversions between Python values and raw values (Raw,
--     Boolean, Number). Access: `__get__` and `__set__` of the same file, for plain registers.
--   * Classes: how a module class is scanned and prepared in pypga/core/module.py (Scanning, Subclass).
--   * Elaboration: pypga/core/migen.py, the Migen module of a module class, with what the registers of
--     pypga/core/register.py add to it (Csrs: the names of its CSRs, Logic: the calls of logic
--     functions). Sim: `sim` of pypga/core/module.py (Steps).
--   * Graph: the handlers of `vis` of the same file (Sets, Flow, Design).
--   * Instance: names and parents of pypga/core/module.py. Csr: pypga/core/interface/csrmap.py and
--     pypga/core/interface/interface.py; `Bus` is what a board offers.
--   * Client: pypga/core/interface/remote/client.py. A call takes the list of the arrivals that `recv`
--     sees, and is `waiting` where the list ends too early; a list with a byte at each arrival and
--     as many arrivals as bytes is long enough (Receive). Answers has what a call makes of an answer.
--     Connection is the start of a client and the clearing of its socket, with the authentication of the
--     server (Token, Clearing).
--   * Shell: pypga/core/interface/remote/sshshell.py, with the decoding of each piece as UTF-8 (Reading,
--     Addresses).
--   * Server: pypga/core/interface/remote/server/server.c, one command of the service loop, for any
--     device behind the memory map. Remote: pypga/core/interface/remote/interface.py, and the client
--     and the server together (EndToEnd).
--   * Soc: the regions of pypga/core/migen_axi/integration/soc_core.py, from which csr.csv is made.
--   * Process: the server object of pypga/core/interface/remote/server.py as the events that it causes
--     on the board (Serving). Session: the construction and the stop of RemoteInterface, with it (Ends).
--     Launch: the attempts of the server object alone, for binaries that run or do not run (Attempts).
--   * Builder: pypga/core/builder.py, pypga/boards/stemlab125_14/builder.py and `TopModule.run` of
--     pypga/core/module.py, over the files of Files (Paths, Effects, Emptied) and the log of Timing.
--     Copied has `copy_results`, Steps, Results and Success a whole build, Runs a whole run. Build:
--     the decisions of `run` alone (Ready).
--
-- Bounds and fuel: the loop of `bit_length` has n rounds for the number n, which halving uses up. The
-- loop that receives the confirmation of a token has 32 rounds, one for each byte, and the loop of
-- a read of the shell one more than characters are ready, if they are ASCII; the 100 rounds of
-- `_clear_socket` are the code's. Python integers are numbers or ℤ (Base/Int). Names are lists of characters.
--
-- Parameters: the device behind the server, the board behind `Bus` and the read of its RAM, the banks
-- of MiSoC, the generator of tokens, what the shell of the board answers, what the build of the system on
-- chip does in its folder, logic functions, simulated modules, what a CSR puts out, the
-- cells of the FPGA behind DAC and pins, and `recv` of the socket and of the SSH channel. A `recv`
-- that raises the time-out is modelled where the client clears its socket, and left out elsewhere.
--
-- Not modelled: the adder, the RAM and the LEDs, the clock tree, the Verilog that Migen makes of a
-- design and its hash, the rest of the system on chip, which follows a copy of migen-axi, fixed-point
-- registers and other floats, the drawing of `vis`, sockets, and the connection of a shell.
pub mod Base
pub mod Common
pub mod PulseGen
pub mod PulseBurst
pub mod Counter
pub mod Register
pub mod Wire
pub mod Server
pub mod Client
pub mod Remote
pub mod SpiMachine
pub mod Spi
pub mod Daq
pub mod Instance
pub mod Csr
pub mod Access
pub mod Mux
pub mod Soc
pub mod Launch
pub mod Build
pub mod Memory
pub mod Graph
pub mod AxiWriter
pub mod Awg
pub mod Dac
pub mod Adc
pub mod Gpio
pub mod Classes
pub mod Connection
pub mod Shell
pub mod Pid
pub mod Files
pub mod Timing
pub mod Builder
pub mod Elaboration
pub mod Process
pub mod Sim
pub mod PulseModule
pub mod Session

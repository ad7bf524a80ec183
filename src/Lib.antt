-- ===== src/Lib.antt =====
-- arm_simulator: a model of the core of the ARM simulator, with the theorems that make it correct.
--
-- The program. The simulator runs ARM instructions on a register file with banked registers and a
-- flat memory. `arm_step` fetches a word, tests its condition, hands it to the handler of its class
-- and, where the handler returns a code that is not 0, calls `arm_exception`. The handlers reach
-- the registers of the current mode and the memory through arm_core.c.
--
-- The files.
-- - Base: helpers; Boolean tests, lists with `get_or` and `set`, 32-bit words, bits and masks.
-- - Constants: arm_constants.h and the exit codes of werror.h.
-- - Util: util.h and util.c (`get_bits`, `asr`, `ror`); Fields and Shifts have them as quotients and
--   remainders, Inserted has `set_bits`.
-- - Memory: memory.c. A `memory` is an `Option Memory`, its array a list of bytes; an access gives
--   the status beside the value or the memory. Holds has the abstract view, a list of bytes.
-- - Registers: registers.c; the table of 96 words, the CPSR and the five SPSRs. Valid has its
--   invariant, Banks the table of banked registers, Spsr the saved status registers.
-- - Core: arm_core.c; `Arm` is `struct arm_core_data` with the characters printed so far. Valid has
--   the invariant of the processor.
-- - Lifetime: what memory.c, registers.c, arm_core.c and main allocate and free; a heap of blocks,
--   in a monad where a use of a block that is not live is the outcome `none`.
-- - Exception: arm_exception.c, and `arm_create`. Branch: arm_branch_other.c.
-- - DataProcessing: arm_data_processing.c; Alu has the operations, Shifter the second operand. Serial
--   has the shifts of the architecture, one place at a time; Reference and Operand compare the code
--   with them, Carry has their bounds. Specified has
--   the operations by their codes, apart from the code of Alu, and Result and Immediate say what an
--   instruction writes.
-- - LoadStore: arm_load_store.c; Address has the addressing modes, Offset and Single have
--   STR and LDR with an offset, Multiple has LDM and STM, with what is stored (Stored), loaded
--   (Loaded) and written to the base (WriteBack).
-- - Instruction: arm_instruction.c; conditions, dispatch and `arm_step`. Condition has the table of
--   the conditions; Arithmetic has a step on a
--   data processing instruction; Confined, here and in the other parts, is about user mode.
-- - Gdb: the breakpoints of gdb_protocol.c, an array with the number of its elements in use; Search
--   has the binary search, Insertion and Removal the changes. Gdb/Text: what that file uses of the
--   C library on text. Gdb/Session: `struct gdb_protocol_data` and what it sends, with `cont` and
--   `step`. Gdb/Commands: the handlers of the other commands. Gdb/Packets: the table of handlers
--   and `gdb_packet_analysis`. Gdb/Scanner: the rules of scanner.l, from which flex makes
--   scanner.c, and their actions. Gdb/Valid: the invariant of a session.
-- - Names: the tables of arm_constants.c, and the choice of send_irq.c.
-- - Debug: the sorted array of file names in debug.c; `is_debugged` is `__is_debugged`.
-- - Trace: trace.c and trace_location.h; what is traced, the stack of locations and the lines that
--   are printed. Requests has what trace_add asks for, Locations nested
--   calls with locations, Printing and Scopes what they print.
-- - Simulator: arm_simulator.c; Options has the options of main, Settings and Chosen what they ask
--   for; then the creation of the processor, and the packets and interrupts of its two threads as steps
--   in any order, since both hold the same lock. Reach has the states that the steps come to.
-- - Tests: concrete machines, and the theorems at concrete inputs.
--
-- The correspondence. A function of the source has its name here; state is passed and returned. A
-- uint32_t is a number below 2^32 with its wrap-around written out, an int32_t its bit pattern, and
-- a size_t has 64 bits. An out-parameter is passed in with the value it holds and returned with the
-- value it holds then, so that a failed read leaves it as it was. An `assert` that fails is the
-- outcome `none` of LDM, STM and `arm_step`. What C or the build leaves open is a parameter,
-- `Target`: ENDIANESS, the values of locals that are not assigned, and a shift by 32.
--
-- Text that C reads past its end, in a command of the debugger, is the parameter `Outside`, like a
-- local that `sscanf` leaves unassigned.
--
-- Bounds. `number_set_bits_in` has sixteen rounds of fuel, one for each bit of a uint16_t; the
-- other loops of the core have a fixed number of rounds. The binary search has as many
-- rounds as there are elements, and one more. `cont` may run for ever; its rounds are a parameter,
-- and more rounds than the steps up to a stop are enough. The scanner has as many rounds as
-- there are bytes, since a token takes at least one.
--
-- Not modelled: the messages on stderr, the calls that trace each access of arm_core.c, the sockets
-- and threads of the main program, the tables that flex makes of
-- the scanner's rules, and csapp.c, a copy of another project's library. Of gdb_protocol.c the
-- shutdown of the connection is not modelled. A reply to `m` that is longer than the packet buffer
-- is the outcome `overrun`, after which nothing is said.
pub mod Base
pub mod Constants
pub mod Util
pub mod Memory
pub mod Registers
pub mod Core
pub mod Lifetime
pub mod Exception
pub mod Branch
pub mod DataProcessing
pub mod LoadStore
pub mod Instruction
pub mod Gdb
pub mod Names
pub mod Debug
pub mod Trace
pub mod Simulator
pub mod Tests

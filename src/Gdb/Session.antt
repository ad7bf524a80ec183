-- ===== src/Gdb/Session.antt =====
-- The state of gdb_protocol.c, what it sends, and the commands that run the processor. A packet is
-- its bytes. The messages of `debug` and `warning` are left out.
use arm_simulator.Base.{
  leb, ℕ, zero, suc, ◌+◌, ◌%◌, ◌^◌, ◌<◌, ◌==◌, if◌then◌else◌, Bool, true, false, Option, none, some,
  List, [], ◌∷◌, ◌++◌, AllBelow, not,
}
use arm_simulator.Constants.{undefined_instruction, prefetch_abort, data_abort, end_simulation}
use arm_simulator.Registers.{registers_read, registers_get_mode}
use arm_simulator.Core.{Arm, Target}
use arm_simulator.Instruction.{arm_step}
use arm_simulator.Gdb.{Breakpoints, gdb_find_breakpoint}
use arm_simulator.Gdb.Text.{codes, hex_text}

-- `struct gdb_protocol_data`: `reg` and `mem` are those of `arm`; `packet` is the first `len` bytes
-- of the array, that is what was sent last, and `sent` all that was written to `fd`, the last one
-- first.
pub record Session : Type 0 where
  pub arm : Arm
  pub target_exception : ℕ
  pub breaks : Breakpoints
  pub packet : List ℕ
  pub sent : List (List ℕ)

-- `unset` is what a local of 32 bits holds before it is assigned, and `elsewhere k` the text that
-- stands `k` bytes after the start of a command where the command is shorter.
pub record Outside : Type 0 where
  pub unset : ℕ
  pub elsewhere : ℕ → List ℕ
  pub unset-lt : unset < 2 ^ 32
  pub elsewhere-lt : (k : ℕ) → AllBelow 256 (elsewhere k)

abbrev pub max_packet_size : ℕ
max_packet_size = 4096

-- A handler returns, or the process ends (a failed assertion, or a null pointer), or the fuel of
-- `cont` is used up, or a reply goes past the end of the array `packet`, after which C says nothing
-- of the session.
pub data Outcome : Type 0 where
  returned : Session → Outcome
  ended : Outcome
  running : Outcome
  overrun : Outcome

-- The session of an outcome, or another.
abbrev pub session_or : Session → Outcome → Session
session_or s (returned q) = q
session_or s ended = s
session_or s running = s
session_or s overrun = s

-- A reply fits with the "$" before it, and "#", two digits and NUL after it.
unfoldable pub fits : ℕ → Bool
fits size = leb (size + 5) max_packet_size

-- The sum of the bytes of a text, in an unsigned char.
unfoldable pub checksum_from : ℕ → List ℕ → ℕ
checksum_from check [] = check
checksum_from check (c ∷ s) = checksum_from ((check + c) % 256) s

unfoldable pub packet_of : List ℕ → List ℕ
unfolding checksum_from hex_text
packet_of payload = b'$' ∷ (payload ++ (b'#' ∷ hex_text 2 (checksum_from 0 payload)))

unfoldable pub gdb_transmit_packet : Session → Session
gdb_transmit_packet s = record s { sent = s.packet ∷ s.sent }

unfoldable pub gdb_send_ack : Session → Session
gdb_send_ack s = record s { sent = codes "+" ∷ s.sent }

unfoldable pub gdb_require_retransmission : Session → Session
gdb_require_retransmission s = record s { sent = codes "-" ∷ s.sent }

-- `gdb_send_buffer`, with the text that the buffer holds; `gdb_send_data` copies it there first.
unfoldable pub gdb_send_data : Session → List ℕ → Session
gdb_send_data s text = gdb_transmit_packet (record s { packet = packet_of text })

unfoldable pub stop_reason : ℕ → List ℕ
stop_reason exception =
    if exception == undefined_instruction
    then codes "S04"
    else if exception == prefetch_abort
    then codes "S0A"
    else if exception == data_abort
    then codes "S0B"
    else if exception == end_simulation
    then codes "X05"
    else codes "S05"

unfoldable pub gdb_send_stop_reason : Session → Session
gdb_send_stop_reason s = gdb_send_data s (stop_reason s.target_exception)

-- The PC is at a breakpoint, or the last step gave an exception.
unfoldable pub stopped : Session → Bool
stopped s =
    let pc = registers_read s.arm.reg 15 (registers_get_mode s.arm.reg) in
    elim (gdb_find_breakpoint s.breaks pc) [
      | some middle ↦ true
      | none ↦ not (s.target_exception == 0)
    ]

module _ (t : Target) where
  -- `none` is the end of the process in `arm_step`.
  unfoldable pub single_step : Session → Option Session
  single_step s = elim (arm_step t s.arm) [
    | none ↦ none
    | some (result, arm) ↦ some (record s { arm = arm; target_exception = result })
  ]

  unfoldable pub step : Session → Outcome
  step s = elim (single_step s) [ none ↦ ended | some q ↦ returned (gdb_send_stop_reason q) ]

  -- The loop of `cont`, with its rounds as fuel.
  unfoldable pub cont : ℕ → Session → Outcome
  cont zero s = running
  cont (suc fuel) s = elim (single_step s) [
    | none ↦ ended
    | some q ↦ elim (stopped q) [ true ↦ returned (gdb_send_stop_reason q) | false ↦ cont fuel q ]
  ]

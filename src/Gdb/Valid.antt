-- ===== src/Gdb/Valid.antt =====
-- gdb_protocol.c: the invariant of a session, that is a valid processor and sorted breakpoints.
pub mod Run
pub mod Commands
pub mod Packets
use arm_simulator.Base.{
  ℕ, zero, suc, ◌+◌, ◌-◌, ◌*◌, ◌%◌, ◌^◌, ◌<◌, ◌≤◌, ◌≡◌, refl, arith, u8, u32, add32, ◌==◌,
  if◌then◌else◌, Bool, true, false, Option, none, some, List, [], ◌∷◌, length, drop, take, get_or,
  bit_xor, AllBelow, AllBelow-get_or, ◌∙◌, leb, ltb, Bool-cases, inl, inr,
}
use arm_simulator.Base.Bits.{bit_xor-lt}
use arm_simulator.Memory.{Memory, memory_write_byte, memory_get_size}
use arm_simulator.Memory.Holds.{Holds}
use arm_simulator.Memory.Bounds.{Kept, write_byte-Kept}
use arm_simulator.Registers.{Registers, registers_get_mode}
use arm_simulator.Registers.Valid as RegistersValid
use arm_simulator.Core.{Arm, Target}
use arm_simulator.Core.Valid.{IsValid, valid, parts, with_registers, with_memory}
use arm_simulator.Instruction.Valid.{arm_step-Returns}
use arm_simulator.Gdb.{Breakpoints, gdb_add_breakpoint, gdb_remove_breakpoint}
use arm_simulator.Gdb.Search.{IsSorted}
use arm_simulator.Gdb.Insertion.{Added, refused, set_there, gdb_add_breakpoint_lem}
use arm_simulator.Gdb.Removal.{Removed, not_there, taken_out, gdb_remove_breakpoint_lem}
use arm_simulator.Gdb.Text.{scan_hex, stored, scan_signed, skip_space, after_char}
use arm_simulator.Gdb.Session.{
  Session, Outside, Outcome, returned, ended, running, overrun, gdb_send_data, gdb_transmit_packet,
  gdb_send_ack, gdb_require_retransmission, gdb_send_stop_reason, stopped, single_step, step, cont,
}
use arm_simulator.Gdb.Commands.{
  read_uint32, two_numbers, kind_and_address, text_at, write_register, write_registers,
  write_general, write_general_registers, write_single_register, char_at, write_bytes,
  write_memory_binary, set_breakpoint, remove_breakpoint, read_memory, read_general_registers,
  read_single_register, set_thread, query,
}
use arm_simulator.Gdb.Packets.{
  handle, packet_body, gdb_packet_analysis, end_of_packet, given_checksum,
}

-- A session whose processor is valid, with a memory of `size` bytes, at some cycle.
pub data IsSession (size : ℕ) (s : Session) : Type 0 where
  session : (cycle : ℕ) → IsValid size cycle s.arm → IsSorted s.breaks → IsSession size s

-- An outcome whose session, if there is one, is valid.
pub data Keeps (size : ℕ) : Outcome → Type 0 where
  kept : (s : Session) → IsSession size s → Keeps size (returned s)
  at_end : Keeps size ended
  no_fuel : Keeps size running
  past_end : Keeps size overrun

module _ {size : ℕ} (s : Session) (v : IsSession size s) where
  pub transmit-IsSession : IsSession size (gdb_transmit_packet s)
  unfolding gdb_transmit_packet
  transmit-IsSession = elim v [ session cycle p b ↦ session cycle p b ]

  pub ack-IsSession : IsSession size (gdb_send_ack s)
  unfolding gdb_send_ack
  ack-IsSession = elim v [ session cycle p b ↦ session cycle p b ]

  pub retransmission-IsSession : IsSession size (gdb_require_retransmission s)
  unfolding gdb_require_retransmission
  retransmission-IsSession = elim v [ session cycle p b ↦ session cycle p b ]

  pub send_data-IsSession : (text : List ℕ) → IsSession size (gdb_send_data s text)
  unfolding gdb_send_data gdb_transmit_packet
  send_data-IsSession text = elim v [ session cycle p b ↦ session cycle p b ]

  pub replied : (text : List ℕ) → Keeps size (returned (gdb_send_data s text))
  replied text = kept (gdb_send_data s text) (send_data-IsSession text)

-- ===== src/Gdb/Packets.antt =====
-- gdb_packet_analysis and the table of handlers of gdb_protocol.c. Each command runs under the
-- lock, so it is one step of the program.
pub mod Checksum
use arm_simulator.Base.{
  ℕ, zero, suc, ◌+◌, ◌-◌, ◌%◌, ◌==◌, if◌then◌else◌, ltb, Option, none, some, List, [], ◌∷◌, length,
  drop, take, max,
}
use arm_simulator.Core.{Arm, Target}
use arm_simulator.Gdb.{Breakpoints}
use arm_simulator.Gdb.Text.{scan_hex}
use arm_simulator.Gdb.Session.{
  Session, Outside, Outcome, returned, ended, gdb_send_data, gdb_send_ack,
  gdb_require_retransmission, gdb_send_stop_reason, checksum_from, step, cont,
}
use arm_simulator.Gdb.Commands.{
  read_general_registers, read_single_register, read_memory, set_thread, query,
  write_general_registers, write_single_register, write_memory_binary, set_breakpoint,
  remove_breakpoint,
}

-- `gdb_init_data`, where the allocation succeeds; `breakpoints` holds whatever `malloc` left, and
-- `len` is 0.
unfoldable pub gdb_init_data : Arm → List ℕ → Session
gdb_init_data arm breakpoints = record {
  arm = arm;
  target_exception = 0;
  breaks = record { breakpoints = breakpoints; breakpoints_number = 0 };
  packet = [];
  sent = [];
}

-- `i` after the loop of the checksum: the place of "#".
unfoldable pub end_of_packet : List ℕ → ℕ
end_of_packet packet = max 1 (length packet - 3)

-- The number after "#".
unfoldable pub given_checksum : Outside → List ℕ → ℕ
given_checksum o packet =
    let digits = drop (end_of_packet packet + 1) packet in
    elim (scan_hex (length digits) digits) [ none ↦ o.unset | some (given, rest) ↦ given ]

-- The bytes between "$" and "#".
unfoldable pub packet_body : List ℕ → List ℕ
packet_body packet = take (end_of_packet packet - 1) (drop 1 packet)

module _ (t : Target) (o : Outside) where
  -- The handler of a byte, as `gdb_init` sets the table; `k` shuts the connection down.
  unfoldable pub handle : ℕ → Session → ℕ → List ℕ → Outcome
  handle fuel s index text =
      if index == b'c'
      then cont t fuel s
      else if index == b'C'
      then cont t fuel s
      else if index == b'k'
      then returned s
      else if index == b'q'
      then query s text
      else if index == b'g'
      then read_general_registers s
      else if index == b'm'
      then read_memory o s text
      else if index == b'p'
      then read_single_register s text
      else if index == b'?'
      then returned (gdb_send_stop_reason s)
      else if index == b'H'
      then set_thread s text
      else if index == b's'
      then step t s
      else if index == b'S'
      then step t s
      else if index == b'G'
      then write_general_registers o s text
      else if index == b'X'
      then write_memory_binary o s text
      else if index == b'P'
      then write_single_register o s text
      else if index == b'z'
      then remove_breakpoint o s text
      else if index == b'Z'
      then set_breakpoint o s text
      else returned (gdb_send_data s [])

  unfoldable pub gdb_packet_analysis : ℕ → Session → List ℕ → Outcome
  gdb_packet_analysis fuel s packet =
      let body = packet_body packet in
      if checksum_from 0 body == given_checksum o packet
      then elim body [
        | [] ↦ handle fuel (gdb_send_ack s) 0 []
        | index ∷ text ↦ handle fuel (gdb_send_ack s) index text
      ]
      else returned (gdb_require_retransmission s)

-- ===== src/Tests/Sessions.antt =====
-- The theorems on the debugger's sessions, at concrete inputs.
use arm_simulator.Base.{
  ◌≤◌, ◌<◌, ◌+◌, inl, inr, sym, zero, suc, List, length-replicate, AllBelow-replicate, ℕ, ◌≡◌, ◌%◌,
  ◌*◌, ◌++◌, refl, arith, replicate, [], ◌∷◌, some, length,
}
use arm_simulator.Memory.{with_bytes, memory_read_word, check_mem_integrity, word_of}
use arm_simulator.Registers.{
  registers_read_cpsr, mode_ind, registers_get_mode, registers_read, registers_write,
}
use arm_simulator.Core.{arm_fetch, arm_read_cpsr}
use arm_simulator.Instruction.{arm_step, arm_execute_instruction, condition_holds, instruction_cond}
use arm_simulator.Gdb.Search.{IsSorted}
use arm_simulator.Gdb.Text.{codes}
use arm_simulator.Gdb.Session.{
  Session, Outside, returned, overrun, cont, gdb_send_stop_reason, gdb_send_data,
  gdb_require_retransmission, gdb_transmit_packet,
}
use arm_simulator.Gdb.Valid.{IsSession, session, Keeps}
use arm_simulator.Gdb.Valid.Run.{Halts, StopsAt, at_once, goes_on, cont-StopsAt}
use arm_simulator.Core.Valid.{parts}
use arm_simulator.Gdb.Commands.{
  general_registers_text, write_general, read_memory, two_numbers, register_text,
  read_single_register,
}
use arm_simulator.Gdb.Commands.RoundTrip.{write_general-general_registers_text}
use arm_simulator.Gdb.Commands.Replies.{
  digits_from, read_memory-digits_from, read_single_register-letter,
}
use arm_simulator.Gdb.Packets.{gdb_packet_analysis}
use arm_simulator.Gdb.Packets.Checksum.{sum, with_checksum, one_byte_changed-refused}
use arm_simulator.Gdb.Scanner.{scan}
use arm_simulator.Gdb.Scanner.Serves.{Message, command, received, again, stream, serve, scan-serve}
use arm_simulator.Gdb.Scanner.Keeps.{scan-Keeps}
use arm_simulator.Simulator.{
  start, memory_size, interrupted, here, next, interrupt_received, sent_again,
}
use arm_simulator.Simulator.Reach.{Allocated, first_session, start-IsSession}
use arm_simulator.Tests.Machine.{target, machine, machine-IsValid}
use arm_simulator.Tests.Debugger.{two_breakpoints, two-IsSorted}

abbrev outside : Outside
outside = record { unset = 0; elsewhere = λ k. []; unset-lt = omega arith; elsewhere-lt = λ k. tt }

abbrev first : Session
first = record {
  arm = machine;
  target_exception = 0;
  breaks = two_breakpoints;
  packet = [];
  sent = [];
}

first-IsSession : IsSession 32 first
first-IsSession = session 0 machine-IsValid two-IsSorted

-- User mode, a memory of zeros (instructions whose condition fails), and a breakpoint at 8.
abbrev waiting : ℕ → ℕ → Session
waiting cycle pc = record {
  arm = record {
    cycle_count = cycle;
    reg = record {
      genreg = replicate 15 0 ++ (pc ∷ replicate 80 0);
      cpsr = 0x10;
      rstat = replicate 5 0;
    };
    mem = with_bytes (replicate 12 0) 12;
    output = [];
  };
  target_exception = 0;
  breaks = record { breakpoints = 8 ∷ replicate 1023 0; breakpoints_number = 1 };
  packet = [];
  sent = [];
}

step_0 : arm_step target (waiting 0 0).arm ≡ some (0, (waiting 1 4).arm)
unfolding arm_step arm_execute_instruction instruction_cond condition_holds arm_fetch
    memory_read_word check_mem_integrity arm_read_cpsr registers_read_cpsr registers_get_mode
    registers_read registers_write mode_ind word_of
step_0 = refl

step_4 : arm_step target (waiting 1 4).arm ≡ some (0, (waiting 2 8).arm)
unfolding arm_step arm_execute_instruction instruction_cond condition_holds arm_fetch
    memory_read_word check_mem_integrity arm_read_cpsr registers_read_cpsr registers_get_mode
    registers_read registers_write mode_ind word_of
step_4 = refl

pc_4 : registers_read (waiting 1 4).arm.reg 15 (registers_get_mode (waiting 1 4).arm.reg) ≡ 4
unfolding registers_read registers_get_mode mode_ind
pc_4 = refl

pc_8 : registers_read (waiting 2 8).arm.reg 15 (registers_get_mode (waiting 2 8).arm.reg) ≡ 8
unfolding registers_read registers_get_mode mode_ind
pc_8 = refl

not_at_4 : ¬ (Halts (waiting 1 4))
not_at_4 (inl (zero, l, at)) = absurd (omega (arith, at, pc_4))
not_at_4 (inl (suc i, l, at)) = absurd (omega arith)
not_at_4 (inr raised) = absurd (raised refl)

waiting-IsSorted : IsSorted (waiting 0 0).breaks
waiting-IsSorted = record {
  room = refl;
  in_use = omega arith;
  goes_up = λ i j l u. absurd (omega arith);
}

two_steps : StopsAt target 1 (waiting 0 0) (waiting 2 8)
two_steps =
    goes_on (0, (waiting 1 4).arm, step_0, refl) not_at_4
      (at_once (0, (waiting 2 8).arm, step_4, refl) (inl (0, omega arith, sym pc_8)))

cont-StopsAt_example : cont target 2 (waiting 0 0) ≡ returned (gdb_send_stop_reason (waiting 2 8))
cont-StopsAt_example =
    cont-StopsAt target 2 1 (waiting 0 0) (waiting 2 8) (omega arith) waiting-IsSorted two_steps

-- `m0,4` that arrives as `m8,4`.
one_byte_changed-refused_example :
    gdb_packet_analysis target outside 5 first (
      with_checksum
        (codes "m" ++ (b'8' ∷ codes ",4"))
        (sum (codes "m" ++ (b'0' ∷ codes ",4")) % 256))
    ≡ returned (gdb_require_retransmission first)
one_byte_changed-refused_example =
    one_byte_changed-refused target outside 5 first (codes "m") (codes ",4") b'0' b'8' (omega arith)
      (omega arith) (omega arith)

write_general-general_registers_text_example :
    write_general outside machine.reg (general_registers_text machine.reg) ≡ machine.reg
write_general-general_registers_text_example =
    write_general-general_registers_text outside machine.reg (parts machine-IsValid).registers

-- `m10,28`
abbrev asked : List ℕ
asked = codes "10,28"

read_memory-digits_from_example :
    let bytes = (parts machine-IsValid).bytes in
    let (address, size) = two_numbers outside asked in
    (length bytes ≤ address
      → read_memory outside first asked ≡ returned (gdb_send_data first (codes "E0E")))
    × (address < length bytes
        → 2 * size + 5 ≤ 4096
        → read_memory outside first asked
          ≡ returned (gdb_send_data first (digits_from bytes address size)))
    × (address < length bytes → 4096 < 2 * size + 5 → read_memory outside first asked ≡ overrun)
read_memory-digits_from_example =
    read_memory-digits_from outside first asked (parts machine-IsValid).memory
      (omega (arith, (parts machine-IsValid).same_size))

-- `pf`, a request for the PC.
read_single_register-letter_example :
    read_single_register first (codes "f")
    ≡ returned (gdb_send_data first (register_text first.arm.reg 0))
read_single_register-letter_example =
    read_single_register-letter first b'f' [] (omega arith) (omega arith)

zeros-Allocated : Allocated (replicate 32768 0) (replicate 96 0) (replicate 5 0) (replicate 1024 0)
zeros-Allocated = record {
  space_size = length-replicate {A = ℕ} 32768 0;
  space_bytes = AllBelow-replicate 256 32768 0 (omega arith);
  genreg_size = refl;
  rstat_size = refl;
  breakpoints_size = length-replicate {A = ℕ} 1024 0;
}

abbrev started : Session
started =
    first_session target (replicate 32768 0) (replicate 96 0) (replicate 5 0) (replicate 1024 0)

-- An interrupt, and then the last packet again.
start-IsSession_example :
    (start target (replicate 32768 0) (replicate 96 0) (replicate 5 0) (replicate 1024 0)
      ≡ some started)
    × IsSession memory_size (gdb_transmit_packet (interrupted target started 6))
start-IsSession_example =
    start-IsSession target (gdb_transmit_packet (interrupted target started 6)) zeros-Allocated
      (next (next here (interrupt_received 6 (omega arith))) sent_again)

-- "+", `m0,4`, "-" and `c`, on one connection.
abbrev messages : List Message
messages = received ∷ command b'm' (codes "0,4") ∷ again ∷ command b's' [] ∷ []

scan-serve_example :
    scan target (λ n. outside) 5 first (stream messages)
    ≡ serve target (λ n. outside) 5 messages first
scan-serve_example = scan-serve target (λ n. outside) 5 messages first (omega arith)

-- Bytes that are no packet.
scan-Keeps_example : Keeps 32 (scan target (λ n. outside) 5 first (codes "x+$g#"))
scan-Keeps_example =
    scan-Keeps target (λ n. outside) 5 first (codes "x+$g#") first-IsSession (omega arith)

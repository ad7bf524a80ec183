-- ===== src/Gdb/Valid/Packets.antt =====
-- gdb_packet_analysis of gdb_protocol.c on a valid session.
use arm_simulator.Base.{
  ◌*◌, ℕ, zero, suc, ◌-◌, arith, ◌==◌, ltb, List, [], ◌∷◌, drop, take, AllBelow, Bool-cases, inl,
  inr, u8,
}
use arm_simulator.Memory.{memory_get_size}
use arm_simulator.Core.{Target}
use arm_simulator.Gdb.Text.{codes, atoi, c_string}
use arm_simulator.Gdb.Session.{
  Session, Outside, Outcome, gdb_send_ack, gdb_require_retransmission, gdb_send_stop_reason, fits,
  checksum_from,
}
use arm_simulator.Gdb.Commands.{
  read_general_registers, read_single_register, read_memory, set_thread, query, two_numbers,
  query_text, general_registers_text,
}
use arm_simulator.Gdb.Packets.{
  handle, packet_body, gdb_packet_analysis, end_of_packet, given_checksum,
}
use arm_simulator.Gdb.Valid.{
  IsSession, Keeps, kept, at_end, past_end, replied, ack-IsSession, retransmission-IsSession,
}
use arm_simulator.Gdb.Valid.Run.{step-Keeps, cont-Keeps, stop_reason-IsSession}
use arm_simulator.Gdb.Valid.Commands.{
  write_general_registers-Keeps, write_single_register-Keeps, write_memory_binary-Keeps,
  set_breakpoint-Keeps, remove_breakpoint-Keeps,
}

AllBelow-drop : (n : ℕ) (s : List ℕ) → AllBelow 256 s → AllBelow 256 (drop n s)
AllBelow-drop zero s a = a
AllBelow-drop (suc n) [] a = a
AllBelow-drop (suc n) (c ∷ s) a = AllBelow-drop n s a.1

AllBelow-take : (n : ℕ) (s : List ℕ) → AllBelow 256 s → AllBelow 256 (take n s)
AllBelow-take zero s a = tt
AllBelow-take (suc n) [] a = a
AllBelow-take (suc n) (c ∷ s) a = (a.0, AllBelow-take n s a.1)

packet_body-AllBelow : (packet : List ℕ) → AllBelow 256 packet → AllBelow 256 (packet_body packet)
unfolding packet_body
packet_body-AllBelow packet a =
    AllBelow-take (end_of_packet packet - 1) (drop 1 packet) (AllBelow-drop 1 packet a)

module _ {size : ℕ} (t : Target) (o : Outside) (s : Session) (v : IsSession size s)
    (text : List ℕ) where
  -- The commands that write nothing but their reply.
  read_single_register-Keeps : Keeps size (read_single_register s text)
  unfolding read_single_register
  read_single_register-Keeps = elim (Bool-cases (ltb (u8 (atoi text)) 16)) [
    | inl e ↦ rw e (replied s v _)
    | inr e ↦ rw e at_end
  ]

  read_memory-Keeps : Keeps size (read_memory o s text)
  unfolding read_memory
  read_memory-Keeps = elim (Bool-cases (ltb (two_numbers o text).0 (memory_get_size s.arm.mem))) [
    | inl e ↦ elim (Bool-cases (fits (2 * (two_numbers o text).1))) [
      | inl f ↦ rw (e, f) (replied s v _)
      | inr f ↦ rw (e, f) past_end
    ]
    | inr e ↦ rw e (replied s v _)
  ]

  set_thread-Keeps : Keeps size (set_thread s text)
  unfolding set_thread
  set_thread-Keeps = ground (arith, replied s v (codes "OK"), replied s v (codes "E01"))

  handle-Keeps : (fuel index : ℕ) → AllBelow 256 text → Keeps size (handle t o fuel s index text)
  unfolding handle query read_general_registers
  handle-Keeps fuel index a = ground (
    arith,
    cont-Keeps t fuel s v,
    kept s v,
    replied s v [],
    replied s v (query_text (c_string text)),
    replied s v (general_registers_text s.arm.reg),
    read_memory-Keeps,
    read_single_register-Keeps,
    kept (gdb_send_stop_reason s) (stop_reason-IsSession t s v),
    set_thread-Keeps,
    step-Keeps t s v,
    write_general_registers-Keeps o s v text,
    write_memory_binary-Keeps o s v text a,
    write_single_register-Keeps o s v text,
    remove_breakpoint-Keeps o s v text,
    set_breakpoint-Keeps o s v text,
  )

-- Whatever packet of bytes arrives, the session that its analysis leaves, if the process goes on,
-- is valid.
pub gdb_packet_analysis-Keeps :
    {size : ℕ} (t : Target) (o : Outside) (fuel : ℕ) (s : Session) (packet : List ℕ)
    → IsSession size s
    → AllBelow 256 packet
    → Keeps size (gdb_packet_analysis t o fuel s packet)
unfolding gdb_packet_analysis
gdb_packet_analysis-Keeps {size} t o fuel s packet v a =
    elim (Bool-cases (checksum_from 0 (packet_body packet) == given_checksum o packet)) [
      | inl e ↦ rw e (run (packet_body packet) (packet_body-AllBelow packet a))
      | inr e ↦ rw e (kept (gdb_require_retransmission s) (retransmission-IsSession s v))
    ]
  where
    run :
        (body : List ℕ)
        → AllBelow 256 body
        → Keeps size (elim body as (λ b. Outcome) [
          | [] ↦ handle t o fuel (gdb_send_ack s) 0 []
          | index ∷ text ↦ handle t o fuel (gdb_send_ack s) index text
        ])
    run [] b = handle-Keeps t o (gdb_send_ack s) (ack-IsSession s v) [] fuel 0 b
    run (index ∷ text) b = handle-Keeps t o (gdb_send_ack s) (ack-IsSession s v) text fuel index b.1

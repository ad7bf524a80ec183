-- ===== src/Simulator.antt =====
-- arm_simulator.c: the options, the start of the simulator, and what its two threads do to the shared
-- processor.
-- A packet of the debugger, handled under the lock, and an interrupt, raised under the lock, are
-- one step each, in any order. Sockets and threads are left out.
pub mod Reach
pub mod Options
pub mod Settings
mod OneOption
pub mod Chosen
use arm_simulator.Base.{ℕ, ◌<◌, ◌≡◌, Bool, true, Option, none, some, List, AllBelow}
use arm_simulator.Memory.{Memory, Created, created, exited, memory_create}
use arm_simulator.Registers.{registers_create}
use arm_simulator.Core.{Arm, Target}
use arm_simulator.Exception.{arm_create, arm_exception}
use arm_simulator.Gdb.Session.{
  Session, Outside, Outcome, returned, gdb_transmit_packet, gdb_require_retransmission,
}
use arm_simulator.Gdb.Packets.{gdb_init_data, gdb_packet_analysis}

abbrev pub memory_size : ℕ
memory_size = 0x8000

-- `main`, and the session that `gdb_scanner` makes, where every allocation succeeds: the arrays are
-- those of `malloc`, with whatever they hold.
unfoldable pub start : Target → (space genreg rstat breakpoints : List ℕ) → Option Session
start t space genreg rstat breakpoints = elim (memory_create true (some space) memory_size) [
  | exited code ↦ none
  | created mem ↦
      some (gdb_init_data (arm_create t (registers_create genreg rstat) mem) breakpoints)
]

-- A byte that `irq_listener` received.
unfoldable pub interrupted : Target → Session → ℕ → Session
interrupted t s irq = record s { arm = (arm_exception t s.arm irq).1 }

module _ (t : Target) where
  -- The steps of the program: a packet, an interrupt, and the two answers of the scanner to what is
  -- not a packet.
  pub data Step : Session → Session → Type 0 where
    packet_received :
        {s q : Session} (o : Outside) (fuel : ℕ) (packet : List ℕ)
        → AllBelow 256 packet
        → gdb_packet_analysis t o fuel s packet ≡ returned q
        → Step s q
    interrupt_received : {s : Session} (irq : ℕ) → irq < 256 → Step s (interrupted t s irq)
    sent_again : {s : Session} → Step s (gdb_transmit_packet s)
    asked_again : {s : Session} → Step s (gdb_require_retransmission s)

  pub data Reaches (s : Session) : Session → Type 0 where
    here : Reaches s s
    next : {q r : Session} → Reaches s q → Step q r → Reaches s r

-- ===== src/Simulator/Reach.antt =====
-- arm_simulator.c: the sessions that the steps of the program reach.
use arm_simulator.Base.{ℕ, ◌^◌, ◌<◌, ◌≡◌, refl, arith, some, List, length, AllBelow, sym, ap}
use mathlib.Core.Path.{subst}
use arm_simulator.Memory.{with_bytes, memory_create}
use arm_simulator.Memory.Holds.{Holds}
use arm_simulator.Core.{Target}
use arm_simulator.Core.Valid.{IsValid}
use arm_simulator.Registers.{registers_create}
use arm_simulator.Exception.{arm_create}
use arm_simulator.Exception.Create.{arm_create-IsValid}
use arm_simulator.Exception.Valid.{arm_exception-IsValid}
use arm_simulator.Gdb.{max_breakpoints_number}
use arm_simulator.Gdb.Session.{Session, Outcome, returned, ended, running, overrun, session_or}
use arm_simulator.Gdb.Packets.{gdb_init_data, gdb_packet_analysis}
use arm_simulator.Gdb.Valid.{
  IsSession, session, Keeps, kept, transmit-IsSession, retransmission-IsSession,
}
use arm_simulator.Gdb.Valid.Packets.{gdb_packet_analysis-Keeps}
use arm_simulator.Simulator.{
  memory_size, start, interrupted, Step, packet_received, interrupt_received, sent_again,
  asked_again, Reaches, here, next,
}

Keeps-returned :
    {size : ℕ} (x : Outcome) (s : Session) → Keeps size x → x ≡ returned s → IsSession size s
Keeps-returned {size} (returned q) s (kept q' v) e = subst (IsSession size) (ap (session_or q) e) v
Keeps-returned ended s k e = absurd (cc)
Keeps-returned running s k e = absurd (cc)
Keeps-returned overrun s k e = absurd (cc)

interrupted-IsSession :
    {size : ℕ} (t : Target) (s : Session) (irq : ℕ)
    → IsSession size s
    → IsSession size (interrupted t s irq)
unfolding interrupted
interrupted-IsSession t s irq (session cycle p b) = session cycle (arm_exception-IsValid p t irq) b

Step-IsSession :
    {size : ℕ} {t : Target} {s q : Session} → Step t s q → IsSession size s → IsSession size q
Step-IsSession {t = t} {s = s} {q = q} (packet_received o fuel packet a e) v =
    Keeps-returned (gdb_packet_analysis t o fuel s packet) q
      (gdb_packet_analysis-Keeps t o fuel s packet v a) e
Step-IsSession {t = t} {s = s} (interrupt_received irq h) v = interrupted-IsSession t s irq v
Step-IsSession {s = s} sent_again v = transmit-IsSession s v
Step-IsSession {s = s} asked_again v = retransmission-IsSession s v

Reaches-IsSession :
    {size : ℕ} {t : Target} {s q : Session} → Reaches t s q → IsSession size s → IsSession size q
Reaches-IsSession here v = v
Reaches-IsSession (next r e) v = Step-IsSession e (Reaches-IsSession r v)

-- What `malloc` and the compiler give at the start.
pub record Allocated (space genreg rstat breakpoints : List ℕ) : Type 0 where
  pub space_size : length space ≡ memory_size
  pub space_bytes : AllBelow 256 space
  pub genreg_size : length genreg ≡ 96
  pub rstat_size : length rstat ≡ 5
  pub breakpoints_size : length breakpoints ≡ max_breakpoints_number

module _ (t : Target) (space genreg rstat breakpoints : List ℕ) where
  abbrev pub first_session : Session
  first_session =
      gdb_init_data (arm_create t (registers_create genreg rstat) (with_bytes space memory_size))
        breakpoints

  start-eq : start t space genreg rstat breakpoints ≡ some first_session
  unfolding start memory_create
  start-eq = refl

  first-IsSession : Allocated space genreg rstat breakpoints → IsSession memory_size first_session
  unfolding gdb_init_data
  first-IsSession m =
      let holds : Holds (with_bytes space memory_size) space = record {
        is_intact = ap (with_bytes space) (sym m.space_size);
        are_bytes = m.space_bytes;
        at_least = omega (arith, m.space_size);
        at_most = omega (arith, m.space_size);
      } in
      let small : length space < 2 ^ 32 = omega (arith, m.space_size) in
      let arm = arm_create t (registers_create genreg rstat) (with_bytes space memory_size) in
      let p = arm_create-IsValid t genreg rstat holds m.genreg_size m.rstat_size small in
      session 0 (subst (λ (n : ℕ). IsValid n 0 arm) m.space_size p) (record {
        room = m.breakpoints_size;
        in_use = omega arith;
        goes_up = λ i j l u. absurd (omega arith);
      })

-- The simulator starts, and after any packets and interrupts in any order, as long as the process
-- goes on and no reply overruns the packet, the session is valid: 32-bit registers, 32768 bytes of memory, and sorted breakpoints.
pub start-IsSession :
    {space genreg rstat breakpoints : List ℕ} (t : Target) (s : Session)
    → Allocated space genreg rstat breakpoints
    → Reaches t (first_session t space genreg rstat breakpoints) s
    → (start t space genreg rstat breakpoints
        ≡ some (first_session t space genreg rstat breakpoints))
      × IsSession memory_size s
start-IsSession {space} {genreg} {rstat} {breakpoints} t s m r = (
  start-eq t space genreg rstat breakpoints,
  Reaches-IsSession r (first-IsSession t space genreg rstat breakpoints m),
)

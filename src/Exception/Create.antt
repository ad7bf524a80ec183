-- ===== src/Exception/Create.antt =====
-- arm_create of arm_core.c.
use arm_simulator.Base.{
  ℕ, ◌%◌, ◌^◌, ◌<◌, ◌≡◌, refl, arith, List, length, Option, ◌==◌, if◌then◌else◌, ◌∙◌, ap,
}
use arm_simulator.Constants.{reset, svc}
use arm_simulator.Memory.{Memory}
use arm_simulator.Memory.Holds.{Holds, get_size-Holds}
use arm_simulator.Registers.{
  Registers, registers_create, registers_get_mode, registers_read, registers_write,
  registers_write_cpsr,
}
use arm_simulator.Registers.Valid as RegistersValid
use arm_simulator.Registers.Banks.{IsMode, read-write, bank, Bank-discrete}
use mathlib.Core.Logic.{ite}
use arm_simulator.Exception.Entry.{in_handler, handler_status, handler_read, write-keeps_cpsr}
use arm_simulator.Core.{Target, arm_write_register, arm_write_register_internal, arm_write_cpsr}
use arm_simulator.Core.Valid.{IsValid, valid, write_register-IsValid}
use arm_simulator.Exception.{arm_create, arm_exception, raise_exception}
use arm_simulator.Exception.Valid.{arm_exception-IsValid}

-- With a memory that holds fewer than 2^32 bytes and a fresh register file, whatever its arrays
-- held, the processor is valid at cycle 0.
pub arm_create-IsValid :
    {mem : Option Memory} {bytes : List ℕ} (t : Target) (genreg rstat : List ℕ)
    → Holds mem bytes
    → length genreg ≡ 96
    → length rstat ≡ 5
    → length bytes < 2 ^ 32
    → IsValid (length bytes) 0 (arm_create t (registers_create genreg rstat) mem)
unfolding arm_create
arm_create-IsValid {bytes} t genreg rstat h g s l =
    let (v, _, _) = RegistersValid.create-IsValid genreg rstat 0 0 g s in
    let fresh =
      valid (record {
        registers = v;
        bytes = bytes;
        memory = h;
        same_size = refl;
        same_cycle = refl;
      }) in
    write_register-IsValid (arm_exception-IsValid fresh t reset) 13 _ (omega arith)

-- A register that is written in a mode, read in the same mode.
pub read-write_same :
    {r : Registers} (reg mode value : ℕ)
    → RegistersValid.IsValid r
    → reg < 16
    → IsMode mode
    → registers_read (registers_write r reg mode value) reg mode ≡ value
read-write_same {r} reg mode value v l m =
    read-write {r = r} reg mode value reg mode v l l m m ∙ own
  where
    own :
        (if reg == reg
          then ite (Bank-discrete (bank reg mode) (bank reg mode)) value (registers_read r reg mode)
          else registers_read r reg mode)
        ≡ value
    own = ground arith

-- The processor starts in supervisor mode with both interrupts disabled, at address 0, with the
-- size of the memory, modulo 2^32, in the stack pointer.
pub arm_create-starts :
    {mem : Option Memory} {bytes : List ℕ} (t : Target) (genreg rstat : List ℕ)
    → Holds mem bytes
    → length genreg ≡ 96
    → length rstat ≡ 5
    → let q = (arm_create t (registers_create genreg rstat) mem).reg in
      (q.cpsr ≡ 0x1d3)
      × (registers_get_mode q ≡ svc)
      × (registers_read q 15 svc ≡ 0)
      × (registers_read q 13 svc ≡ length bytes % 2 ^ 32)
unfolding arm_create arm_exception raise_exception arm_write_register arm_write_register_internal
    arm_write_cpsr
arm_create-starts {bytes} t genreg rstat h g s =
    let (v, _, _) = RegistersValid.create-IsValid genreg rstat 0 0 g s in
    let r0 = registers_create genreg rstat in
    let r1 = in_handler r0 v 0x1d3 0 (omega arith) refl in
    let status = handler_status r0 v 0x1d3 0 (omega arith) refl in
    let mode : registers_get_mode r1 ≡ svc =
      RegistersValid.get_mode-eq r1 ∙ ap (λ (c : ℕ). c % 32) status in
    let is_svc : IsMode svc = ground arith in
    let v1 =
      RegistersValid.write-IsValid 15 (registers_get_mode (registers_write_cpsr r0 0x1d3)) 0
        (RegistersValid.write_cpsr-IsValid 0x1d3 v (omega arith)) (omega arith) in
    let size = length bytes % 2 ^ 32 in
    let after = write-keeps_cpsr r1 13 svc size ∙ status in
    rw (mode, get_size-Holds h)
      (
        after,
        RegistersValid.get_mode-eq (registers_write r1 13 svc size) ∙ ap (λ (c : ℕ). c % 32) after,
        read-write {r = r1} 13 svc size 15 svc v1 (omega arith) (omega arith) is_svc is_svc
            ∙ handler_read r0 v 0x1d3 0 (omega arith) refl 15 svc (omega arith) is_svc,
        read-write_same {r = r1} 13 svc size v1 (omega arith) is_svc,
      )

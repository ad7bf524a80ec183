-- ===== src/Exception.antt =====
-- arm_exception.c: entry into an exception, and the software interrupts that the simulator serves.
pub mod Create
pub mod Entry
pub mod Valid
use arm_simulator.Base.{
  u32, ℕ, zero, add32, sub32, ◌==◌, if◌then◌else◌, bit_and, bit_or, List, [], ◌∷◌, Option, Bool,
  true, false,
}
use arm_simulator.Constants.{
  reset, data_abort, fast_interrupt, interrupt, prefetch_abort, undefined_instruction,
  software_interrupt, end_simulation,
}
use arm_simulator.Util.{set_bit, clr_bit}
use arm_simulator.Memory.{Memory, memory_get_size}
use arm_simulator.Registers.{Registers}
use arm_simulator.Core.{
  Arm, Target, value_local, arm_read_register, arm_read_cpsr, arm_write_register, arm_write_cpsr,
  arm_write_spsr, arm_read_word,
}

-- `0x1d3 | Exception_bit_9`: supervisor mode with interrupts and fast interrupts disabled.
abbrev pub exception_cpsr : ℕ
exception_cpsr = 0x1d3

-- The calls that each case but RESET makes: save pc, save cpsr, enter the mode, go to the handler.
unfoldable pub enter : Arm → ℕ → ℕ → ℕ → Arm
enter p restore_pc cpsr vector =
    let p1 = arm_write_register p 14 restore_pc in
    let p2 = arm_write_spsr p1 (arm_read_cpsr p1) in
    let p3 = arm_write_cpsr p2 cpsr in arm_write_register p3 15 vector

-- The cases of the `switch` that follow ARM manual A2-18 to A2-26.
unfoldable pub raise_exception : Arm → ℕ → Arm
raise_exception p exception =
    let cpsr = exception_cpsr in
    let pc = arm_read_register p 15 in
    if exception == reset
    then arm_write_register (arm_write_cpsr p cpsr) 15 0
    else if exception == fast_interrupt
    then enter p (add32 pc 4) cpsr 0x1C
    else if exception == interrupt
    then enter p (add32 pc 4) (clr_bit cpsr 6) 0x18
    else if exception == undefined_instruction
    then enter p pc (clr_bit cpsr 6) 0x04
    else if exception == prefetch_abort
    then enter p (add32 pc 4) (clr_bit cpsr 6) 0x0C
    else if exception == data_abort
    then enter p (add32 pc 8) (clr_bit cpsr 6) 0x10
    else p

module _ (t : Target) where
  -- The low 24 bits of the instruction that is executed, read again from the memory.
  unfoldable pub swi_code : Arm → ℕ
  swi_code p =
      let address = sub32 (arm_read_register p 15) 8 in
      bit_and (arm_read_word t p address (t.uninit value_local p)).1 0xFFFFFF

  -- The returned status, and the processor then.
  unfoldable pub arm_exception : Arm → ℕ → ℕ × Arm
  arm_exception p exception =
      if exception == software_interrupt
      then if swi_code p == 0x123456
        then (end_simulation, p)
        else if swi_code p == 0x000001
        then (zero, record p { output = arm_read_register p 0 ∷ p.output })
        else (exception, p)
      else (exception, raise_exception p exception)

-- `arm_create`: the processor is reset, and sp set to the size of the memory, as a uint32_t.
unfoldable pub arm_create : Target → Registers → Option Memory → Arm
arm_create t reg mem =
    let fresh : Arm = record { cycle_count = 0; reg = reg; mem = mem; output = [] } in
    arm_write_register (arm_exception t fresh reset).1 13 (u32 (memory_get_size mem))

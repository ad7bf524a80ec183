-- ===== src/Core.antt =====
-- arm_core.c: the processor, with access to the registers of the current mode and to the memory.
-- The trace calls print and change nothing here. `Target` holds what C or the build leaves open.
pub mod Valid
pub mod Confined
use arm_simulator.Base.{
  ℕ, ◌+◌, ◌%◌, ◌^◌, ◌<◌, bit_and, add32, ◌==◌, if◌then◌else◌, Option, List, ◌≡◌, ◌⊎◌,
}
use arm_simulator.Constants.{usr, reset}
use arm_simulator.Memory.{
  Memory, memory_get_size, memory_read_byte, memory_read_half, memory_read_word, memory_write_byte,
  memory_write_half, memory_write_word,
}
use arm_simulator.Registers.{
  Registers, registers_get_mode, registers_read, registers_read_cpsr, registers_read_spsr,
  registers_write, registers_write_cpsr, registers_write_spsr, registers_current_mode_has_spsr,
  registers_in_a_privileged_mode,
}

-- `struct arm_core_data`, and the characters that `putchar` was given, the last one first.
pub record Arm : Type 0 where
  pub cycle_count : ℕ
  pub reg : Registers
  pub mem : Option Memory
  pub output : List ℕ

-- The locals that may be read before they are assigned: `address` of a load or store, and the
-- variable that a failed memory read leaves as it was.
pub data Local : Type 0 where
  address_local value_local : Local

-- `endianess` is ENDIANESS, set at compile time. `uninit` is the value that a local holds
-- before it is assigned, which C leaves open, and `wide` the value of a shift by 32 or more: on
-- the usual processors `x << 32` is `x`, where the count is cut to five bits, or 0.
pub record Target : Type 0 where
  pub endianess : ℕ
  pub uninit : Local → Arm → ℕ
  pub wide : ℕ → ℕ → ℕ
  pub uninit-lt : (l : Local) (p : Arm) → uninit l p < 2 ^ 32
  pub wide_cases : (x k : ℕ) → (wide x k ≡ x) ⊎ (wide x k ≡ 0)

unfoldable pub arm_current_mode_has_spsr : Arm → ℕ × Arm
unfolding registers_current_mode_has_spsr
arm_current_mode_has_spsr p =
    let (answer, reg) = registers_current_mode_has_spsr p.reg in (answer, record p { reg = reg })

unfoldable pub arm_in_a_privileged_mode : Arm → ℕ
arm_in_a_privileged_mode p = registers_in_a_privileged_mode p.reg

unfoldable pub arm_get_cycle_count : Arm → ℕ
arm_get_cycle_count p = p.cycle_count

-- The program counter is read four bytes further, since the fetch has moved it by four.
unfoldable pub arm_read_register_internal : Arm → ℕ → ℕ → ℕ
arm_read_register_internal p reg mode =
    let value = registers_read p.reg reg mode in
    if reg == 15 then bit_and (add32 value 4) 0xFFFFFFFD else value

unfoldable pub arm_read_register : Arm → ℕ → ℕ
arm_read_register p reg = arm_read_register_internal p reg (registers_get_mode p.reg)

unfoldable pub arm_read_usr_register : Arm → ℕ → ℕ
arm_read_usr_register p reg = arm_read_register_internal p reg usr

unfoldable pub arm_read_cpsr : Arm → ℕ
arm_read_cpsr p = registers_read_cpsr p.reg

unfoldable pub arm_read_spsr : Arm → ℕ
arm_read_spsr p = registers_read_spsr p.reg (registers_get_mode p.reg)

unfoldable pub arm_write_register_internal : Arm → ℕ → ℕ → ℕ → Arm
arm_write_register_internal p reg mode value = record p {
  reg = registers_write p.reg reg mode value;
}

unfoldable pub arm_write_register : Arm → ℕ → ℕ → Arm
arm_write_register p reg value = arm_write_register_internal p reg (registers_get_mode p.reg) value

unfoldable pub arm_write_usr_register : Arm → ℕ → ℕ → Arm
arm_write_usr_register p reg value = arm_write_register_internal p reg usr value

unfoldable pub arm_write_cpsr : Arm → ℕ → Arm
arm_write_cpsr p value = record p { reg = registers_write_cpsr p.reg value }

unfoldable pub arm_write_spsr : Arm → ℕ → Arm
arm_write_spsr p value = record p {
  reg = registers_write_spsr p.reg (registers_get_mode p.reg) value;
}

module _ (t : Target) where
  -- Reads: the status, and what the out-parameter, which held `value`, holds then.
  unfoldable pub arm_read_byte : Arm → ℕ → ℕ → ℕ × ℕ
  arm_read_byte p address value = memory_read_byte p.mem address value

  unfoldable pub arm_read_half : Arm → ℕ → ℕ → ℕ × ℕ
  arm_read_half p address value = memory_read_half p.mem address value t.endianess

  unfoldable pub arm_read_word : Arm → ℕ → ℕ → ℕ × ℕ
  arm_read_word p address value = memory_read_word p.mem address value t.endianess

  -- The status, the word fetched, and the processor then.
  unfoldable pub arm_fetch : Arm → ℕ → ℕ × ℕ × Arm
  arm_fetch p value =
      let mode = registers_get_mode p.reg in
      let address = registers_read p.reg 15 mode in
      let reg = registers_write p.reg 15 mode (add32 address 4) in
      let (result, word) = memory_read_word p.mem address value t.endianess in
      (result, word, record p { reg = reg; cycle_count = add32 p.cycle_count 1 })

  unfoldable pub arm_write_byte : Arm → ℕ → ℕ → ℕ × Arm
  arm_write_byte p address value =
      let (result, mem) = memory_write_byte p.mem address value in (result, record p { mem = mem })

  unfoldable pub arm_write_half : Arm → ℕ → ℕ → ℕ × Arm
  arm_write_half p address value =
      let (result, mem) = memory_write_half p.mem address value t.endianess in
      (result, record p { mem = mem })

  unfoldable pub arm_write_word : Arm → ℕ → ℕ → ℕ × Arm
  arm_write_word p address value =
      let (result, mem) = memory_write_word p.mem address value t.endianess in
      (result, record p { mem = mem })

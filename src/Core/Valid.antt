-- ===== src/Core/Valid.antt =====
-- The invariant of the processor of arm_core.c: 32-bit registers, a memory of bytes, its size, and
-- the number of cycles.
use arm_simulator.Base.{ℕ, ◌^◌, ◌<◌, ◌≡◌, arith, add32, List, length, Option, ◌∙◌}
use arm_simulator.Base.Bits.{bit_and-lt}
use arm_simulator.Memory.{Memory}
use arm_simulator.Memory.Holds.{Holds}
use arm_simulator.Memory.Bounds.{
  Kept, read_byte-lt, read_half-lt, read_word-lt, write_byte-Kept, write_half-Kept, write_word-Kept,
}
use arm_simulator.Registers.{
  Registers, registers_get_mode, registers_read, registers_read_cpsr,
  registers_current_mode_has_spsr,
}
use arm_simulator.Registers.Valid as RegistersValid
use arm_simulator.Core.{
  Arm, Target, arm_current_mode_has_spsr, arm_read_register_internal, arm_read_register,
  arm_read_usr_register, arm_read_cpsr, arm_read_spsr, arm_write_register_internal,
  arm_write_register, arm_write_usr_register, arm_write_cpsr, arm_write_spsr, arm_read_byte,
  arm_read_half, arm_read_word, arm_fetch, arm_write_byte, arm_write_half, arm_write_word,
}

-- A valid processor with a memory of `size` bytes at a cycle.
pub record Parts (size cycle : ℕ) (p : Arm) : Type 0 where
  pub registers : RegistersValid.IsValid p.reg
  pub bytes : List ℕ
  pub memory : Holds p.mem bytes
  pub same_size : length bytes ≡ size
  pub same_cycle : p.cycle_count ≡ cycle

-- The parts behind one constructor, so that a proof which splits the cases of an operation takes
-- the invariant whole.
pub data IsValid (size cycle : ℕ) (p : Arm) : Type 0 where
  valid : Parts size cycle p → IsValid size cycle p

unfoldable pub parts : {size cycle : ℕ} {p : Arm} → IsValid size cycle p → Parts size cycle p
parts (valid v) = v

pub with_registers :
    {size cycle : ℕ} {p : Arm} {reg : Registers}
    → IsValid size cycle p
    → RegistersValid.IsValid reg
    → IsValid size cycle (record p { reg = reg })
with_registers (valid v) r = valid (record {
  registers = r;
  bytes = v.bytes;
  memory = v.memory;
  same_size = v.same_size;
  same_cycle = v.same_cycle;
})

pub with_memory :
    {size cycle : ℕ} {p : Arm} {mem : Option Memory} (v : IsValid size cycle p)
    → Kept (parts v).memory mem
    → IsValid size cycle (record p { mem = mem })
with_memory v (bytes, holds, e) = valid (record {
  registers = (parts v).registers;
  bytes = bytes;
  memory = holds;
  same_size = e ∙ (parts v).same_size;
  same_cycle = (parts v).same_cycle;
})

module _ {size cycle : ℕ} {p : Arm} (v : IsValid size cycle p) where
  read_internal-lt : (reg mode : ℕ) → arm_read_register_internal p reg mode < 2 ^ 32
  unfolding arm_read_register_internal
  read_internal-lt reg mode = ground (
    arith,
    RegistersValid.read-lt reg mode (parts v).registers,
    bit_and-lt 32 (add32 (registers_read p.reg reg mode) 4) 0xFFFFFFFD (omega arith) (omega arith),
  )

  pub read_register-lt : (reg : ℕ) → arm_read_register p reg < 2 ^ 32
  unfolding arm_read_register
  read_register-lt reg = read_internal-lt reg (registers_get_mode p.reg)

  pub read_usr_register-lt : (reg : ℕ) → arm_read_usr_register p reg < 2 ^ 32
  unfolding arm_read_usr_register
  read_usr_register-lt reg = read_internal-lt reg _

  pub read_cpsr-lt : arm_read_cpsr p < 2 ^ 32
  unfolding arm_read_cpsr registers_read_cpsr
  read_cpsr-lt = (parts v).registers.status

  pub read_spsr-lt : arm_read_spsr p < 2 ^ 32
  unfolding arm_read_spsr
  read_spsr-lt = RegistersValid.read_spsr-lt _ (parts v).registers

  pub has_spsr-IsValid : IsValid size cycle (arm_current_mode_has_spsr p).1
  unfolding arm_current_mode_has_spsr registers_current_mode_has_spsr
  has_spsr-IsValid = with_registers v (RegistersValid.mode_has_spsr-IsValid _ (parts v).registers)

  pub write_register-IsValid :
      (reg value : ℕ) → value < 2 ^ 32 → IsValid size cycle (arm_write_register p reg value)
  unfolding arm_write_register arm_write_register_internal
  write_register-IsValid reg value h =
      with_registers v (RegistersValid.write-IsValid reg _ value (parts v).registers h)

  pub write_usr_register-IsValid :
      (reg value : ℕ) → value < 2 ^ 32 → IsValid size cycle (arm_write_usr_register p reg value)
  unfolding arm_write_usr_register arm_write_register_internal
  write_usr_register-IsValid reg value h =
      with_registers v (RegistersValid.write-IsValid reg _ value (parts v).registers h)

  pub write_cpsr-IsValid :
      (value : ℕ) → value < 2 ^ 32 → IsValid size cycle (arm_write_cpsr p value)
  unfolding arm_write_cpsr
  write_cpsr-IsValid value h =
      with_registers v (RegistersValid.write_cpsr-IsValid value (parts v).registers h)

  pub write_spsr-IsValid :
      (value : ℕ) → value < 2 ^ 32 → IsValid size cycle (arm_write_spsr p value)
  unfolding arm_write_spsr
  write_spsr-IsValid value h =
      with_registers v (RegistersValid.write_spsr-IsValid _ value (parts v).registers h)

  module _ (t : Target) where
    pub arm_read_byte-lt :
        (address value : ℕ) → value < 2 ^ 32 → (arm_read_byte t p address value).1 < 2 ^ 32
    unfolding arm_read_byte
    arm_read_byte-lt address value h = read_byte-lt (parts v).memory address value h

    pub arm_read_half-lt :
        (address value : ℕ) → value < 2 ^ 32 → (arm_read_half t p address value).1 < 2 ^ 32
    unfolding arm_read_half
    arm_read_half-lt address value h = read_half-lt (parts v).memory address value _ h

    pub arm_read_word-lt :
        (address value : ℕ) → value < 2 ^ 32 → (arm_read_word t p address value).1 < 2 ^ 32
    unfolding arm_read_word
    arm_read_word-lt address value h = read_word-lt (parts v).memory address value _ h

    pub write_byte-IsValid :
        (address value : ℕ) → value < 256 → IsValid size cycle (arm_write_byte t p address value).1
    unfolding arm_write_byte
    write_byte-IsValid address value h =
        with_memory v (write_byte-Kept (parts v).memory address value h)

    pub write_half-IsValid :
        (address value : ℕ) → IsValid size cycle (arm_write_half t p address value).1
    unfolding arm_write_half
    write_half-IsValid address value =
        with_memory v (write_half-Kept (parts v).memory address value t.endianess)

    pub write_word-IsValid :
        (address value : ℕ) → IsValid size cycle (arm_write_word t p address value).1
    unfolding arm_write_word
    write_word-IsValid address value =
        with_memory v (write_word-Kept (parts v).memory address value t.endianess)

    -- The fetch moves the PC by four and counts a cycle.
    pub fetch-IsValid : (value : ℕ) → IsValid size (add32 cycle 1) (arm_fetch t p value).2
    unfolding arm_fetch
    fetch-IsValid value = valid (record {
      registers = RegistersValid.write-IsValid 15 _ _ (parts v).registers (omega arith);
      bytes = (parts v).bytes;
      memory = (parts v).memory;
      same_size = (parts v).same_size;
      same_cycle = rw (parts v).same_cycle;
    })

    pub fetch-lt : (value : ℕ) → value < 2 ^ 32 → (arm_fetch t p value).1 < 2 ^ 32
    unfolding arm_fetch
    fetch-lt value h = read_word-lt (parts v).memory _ value _ h

-- ===== src/DataProcessing.antt =====
-- arm_data_processing.c: the sixteen operations with their flags, the two ways to form the second
-- operand, and MSR with an immediate. An int32_t is its bit pattern.
mod Alu
pub mod Specified
pub mod Flags
pub mod Return
pub mod Compare
mod Shifter
pub mod Serial
pub mod Reference
pub mod Operand
pub mod Carry
pub mod Result
pub mod Immediate
unfoldable pub use Alu.*
unfoldable pub use Shifter.*
pub mod Valid
pub mod Confined
use arm_simulator.Base.{
  ℕ, zero, ◌+◌, ◌*◌, not32, shl32, ◌==◌, if◌then◌else◌, ◌&&◌, bit_and, bit_or, Option, none, some,
}
use arm_simulator.Constants.{
  successfully_decoded, undefined_instruction, n_flag, z_flag, c_flag, v_flag, unalloc_mask,
  user_mask, priv_mask, state_mask,
}
use arm_simulator.Util.{get_bit, get_bits, ror}
use arm_simulator.Core.{
  Arm, Target, arm_read_register, arm_write_register, arm_read_cpsr, arm_write_cpsr, arm_read_spsr,
  arm_write_spsr, arm_current_mode_has_spsr, arm_in_a_privileged_mode,
}

-- The CPSR with the flags of a result.
unfoldable pub new_cpsr : ℕ → AluOut → ℕ
new_cpsr cpsr out =
    bit_or
      (bit_or
        (bit_or (bit_or (bit_and cpsr 0x0FFFFFFF) (shl32 (get_bit out.result 31) n_flag))
          (shl32 (if out.result == 0 then 1 else 0) z_flag))
        (shl32 out.carry c_flag))
      (shl32 out.overflow v_flag)

-- Rd is written if the operation asks for it.
unfoldable pub write_result : Arm → ℕ → AluOut → Arm
write_result p rd out = if out.change_rd == 0 then p else arm_write_register p rd out.result

-- The last part, at the CPSR from before: with S and Rd = 15 the SPSR goes to the CPSR, and with S
-- and another Rd the flags do.
unfoldable pub write_flags : Arm → ℕ → ℕ → ℕ → AluOut → ℕ × Arm
write_flags p cpsr s_bit rd out =
    let (answer, p1) = arm_current_mode_has_spsr p in
    if s_bit == 0
    then (successfully_decoded, p)
    else if rd == 15
    then if answer == 0
      then (undefined_instruction, p1)
      else (successfully_decoded, arm_write_cpsr p1 (arm_read_spsr p1))
    else (successfully_decoded, arm_write_cpsr p (new_cpsr cpsr out))

unfoldable pub data_processing : Arm → ℕ → ℕ → ℕ → ℕ → ℕ → ℕ → ℕ × Arm
data_processing p s_bit opcode rd rn_value shifter_operand shifter_carry_out =
    let cpsr = arm_read_cpsr p in
    let out =
      alu (opcode_of opcode) rn_value shifter_operand shifter_carry_out (get_bit cpsr c_flag)
        (get_bit cpsr v_flag) in
    write_flags (write_result p rd out) cpsr s_bit rd out

-- The bytes of the status register that the field mask selects.
unfoldable pub byte_mask_of : ℕ → ℕ
byte_mask_of field_mask =
    let m0 = if get_bit field_mask 0 == 1 then bit_or 0 0x000000FF else 0 in
    let m1 = if get_bit field_mask 1 == 1 then bit_or m0 0x0000FF00 else m0 in
    let m2 = if get_bit field_mask 2 == 1 then bit_or m1 0x00FF0000 else m1 in
    if get_bit field_mask 3 == 1 then bit_or m2 0xFF000000 else m2

-- `(old & ~mask) | (operand & mask)`
unfoldable pub merge : ℕ → ℕ → ℕ → ℕ
merge old operand mask = bit_or (bit_and old (not32 mask)) (bit_and operand mask)

module _ (t : Target) where
  unfoldable pub arm_data_processing_shift : Arm → ℕ → ℕ × Arm
  arm_data_processing_shift p ins = elim (shifter t p ins) [
    | none ↦ (undefined_instruction, p)
    | some (operand, carry) ↦
        data_processing p (get_bit ins 20) (get_bits ins 24 21) (get_bits ins 15 12)
          (arm_read_register p (get_bits ins 19 16)) operand carry
  ]

  unfoldable pub arm_data_processing_immediate : Arm → ℕ → ℕ × Arm
  arm_data_processing_immediate p ins =
      let rotate_imm = get_bits ins 11 8 in
      let shifter_operand = ror t.wide (get_bits ins 7 0) (rotate_imm * 2) in
      let shifter_carry_out =
        if rotate_imm == 0 then get_bit (arm_read_cpsr p) c_flag else get_bit shifter_operand 31 in
      data_processing p (get_bit ins 20) (get_bits ins 24 21) (get_bits ins 15 12)
        (arm_read_register p (get_bits ins 19 16)) shifter_operand shifter_carry_out

  unfoldable pub arm_msr_immediate : Arm → ℕ → ℕ × Arm
  arm_msr_immediate p ins =
      let operand = ror t.wide (get_bits ins 7 0) (get_bits ins 11 8 * 2) in
      let byte_mask = byte_mask_of (get_bits ins 19 16) in
      let cpsr = arm_read_cpsr p in
      let priv = bit_and byte_mask (bit_or user_mask priv_mask) in
      let user = bit_and byte_mask user_mask in
      let saved = bit_and byte_mask (bit_or (bit_or user_mask priv_mask) state_mask) in
      let (answer, p1) = arm_current_mode_has_spsr p in
      if bit_and operand unalloc_mask == 0
      then if get_bit ins 22 == 0
        then if arm_in_a_privileged_mode p == 0
          then (successfully_decoded, arm_write_cpsr p (merge cpsr operand user))
          else if bit_and operand state_mask == 0
          then (successfully_decoded, arm_write_cpsr p (merge cpsr operand priv))
          else (undefined_instruction, p)
        else if answer == 0
        then (undefined_instruction, p1)
        else (successfully_decoded, arm_write_spsr p1 (merge (arm_read_spsr p1) operand saved))
      else (undefined_instruction, p)

  unfoldable pub arm_data_processing_immediate_msr : Arm → ℕ → ℕ × Arm
  arm_data_processing_immediate_msr p ins =
      if get_bits ins 24 23 == 2 && get_bits ins 21 20 == 2
      then arm_msr_immediate p ins
      else arm_data_processing_immediate p ins

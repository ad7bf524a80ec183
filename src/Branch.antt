-- ===== src/Branch.antt =====
-- arm_branch_other.c: branches, the software interrupt instruction, and MRS.
pub mod Target
pub mod Valid
pub mod Confined
use arm_simulator.Base.{
  ℕ, zero, ◌*◌, ◌/◌, ◌^◌, add32, sub32, shl32, shr32, u8, ◌==◌, if◌then◌else◌, bit_and, bit_or,
}
use arm_simulator.Constants.{successfully_decoded, undefined_instruction, software_interrupt}
use arm_simulator.Util.{get_bit}
use arm_simulator.Core.{
  Arm, arm_read_register, arm_write_register, arm_read_cpsr, arm_read_spsr,
  arm_current_mode_has_spsr,
}

abbrev pub br_index : ℕ
br_index = 25

abbrev pub br_code : ℕ
br_code = 5

abbrev pub offset_mask : ℕ
offset_mask = 0x00FFFFFF

abbrev pub swi_index : ℕ
swi_index = 24

-- The code of an SWI under its mask, `SWI_CODE`.
abbrev pub swi_opcode : ℕ
swi_opcode = 15

abbrev pub mrs_index : ℕ
mrs_index = 23

abbrev pub mrs_code : ℕ
mrs_code = 2

abbrev pub rd_index : ℕ
rd_index = 12

-- The 24-bit offset of a branch, extended and times four.
unfoldable pub branch_offset : ℕ → ℕ
branch_offset ins =
    let offset = bit_and ins offset_mask in
    let extended = if get_bit offset 23 == 1 then bit_or offset 0x3F000000 else offset in
    shl32 extended 2

unfoldable pub arm_branch : Arm → ℕ → ℕ × Arm
arm_branch p ins =
    let codeop = u8 (shr32 (bit_and ins (shl32 br_code br_index)) br_index) in
    let temp_pc = arm_read_register p 15 in
    let p1 = if get_bit ins 24 == 1 then arm_write_register p 14 (sub32 temp_pc 4) else p in
    if codeop == br_code
    then (successfully_decoded, arm_write_register p1 15 (add32 temp_pc (branch_offset ins)))
    else (undefined_instruction, p)

unfoldable pub arm_coprocessor_others_swi : Arm → ℕ → ℕ × Arm
arm_coprocessor_others_swi p ins =
    let codeop = u8 (shr32 (bit_and ins (shl32 15 swi_index)) swi_index) in
    if codeop == swi_opcode then (software_interrupt, p) else (undefined_instruction, p)

unfoldable pub arm_miscellaneous : Arm → ℕ → ℕ × Arm
arm_miscellaneous p ins =
    let codeop = u8 (shr32 (bit_and ins (shl32 2 mrs_index)) mrs_index) in
    let return_reg = u8 (shr32 (bit_and ins (shl32 15 rd_index)) rd_index) in
    let (answer, p1) = arm_current_mode_has_spsr p in
    if codeop == mrs_code
    then if get_bit ins 22 == 1
      then if answer == zero
        then (undefined_instruction, p1)
        else (successfully_decoded, arm_write_register p1 return_reg (arm_read_spsr p1))
      else (successfully_decoded, arm_write_register p return_reg (arm_read_cpsr p))
    else (undefined_instruction, p)

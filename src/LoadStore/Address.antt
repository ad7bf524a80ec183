-- ===== src/LoadStore/Address.antt =====
-- The addressing modes of `arm_load_store`, with their write-back to the base register.
use arm_simulator.Base.{ℕ, add32, sub32, shl32, shr32, ◌==◌, if◌then◌else◌, bit_or}
use arm_simulator.Constants.{undefined_instruction, c_flag, lsl, lsr, asr_code, ror_code}
use arm_simulator.Util.{get_bit, get_bits, asr, ror}
use arm_simulator.Core.{
  Arm, Target, address_local, arm_read_register, arm_read_cpsr, arm_write_register,
}

unfoldable pub check_u : ℕ → ℕ → ℕ → ℕ
check_u u rn offset = if u == 1 then add32 rn offset else sub32 rn offset

unfoldable pub shift_operation : Target → Arm → ℕ → ℕ → ℕ → ℕ
shift_operation t p rm_val shift shift_imm =
    if shift == lsl
    then shl32 rm_val shift_imm
    else if shift == lsr
    then if shift_imm == 0 then 0 else shr32 rm_val shift_imm
    else if shift == asr_code
    then if shift_imm == 0
      then if get_bit rm_val 31 == 1 then 0xFFFFFFFF else 0
      else asr t.wide rm_val shift_imm
    else if shift == ror_code
    then if shift_imm == 0
      then bit_or (shl32 (get_bit (arm_read_cpsr p) c_flag) 31) (shr32 rm_val 1)
      else ror t.wide rm_val shift_imm
    else 0

-- What an addressing mode leaves: a status to return if it is not 0, the address, and the
-- processor after the write-back.
pub record Addressed : Type 0 where
  pub status : ℕ
  pub address : ℕ
  pub after : Arm

-- `address` is never assigned.
unfoldable pub unassigned : Target → Arm → Addressed
unassigned t p = record { status = 0; address = t.uninit address_local p; after = p }

-- The three ways to use an offset: alone, before the access with write-back, after it.
unfoldable pub offset_mode : Arm → ℕ → ℕ → ℕ → Addressed
offset_mode p u rn offset = record { status = 0; address = check_u u rn offset; after = p }

unfoldable pub pre_indexed : Arm → ℕ → ℕ → ℕ → ℕ → Addressed
pre_indexed p u rn_register rn offset =
    let address = check_u u rn offset in
    record { status = 0; address = address; after = arm_write_register p rn_register address }

unfoldable pub post_indexed : Arm → ℕ → ℕ → ℕ → ℕ → Addressed
post_indexed p u rn_register rn offset = record {
  status = 0;
  address = rn;
  after = arm_write_register p rn_register (check_u u rn offset);
}

-- P is bit 24, U bit 23, W bit 21.
unfoldable pub process_load_store_instruction : Target → Arm → ℕ → ℕ → Addressed
process_load_store_instruction t p ins value =
    let rn_register = get_bits ins 19 16 in
    let rn = arm_read_register p rn_register in
    let u = get_bit ins 23 in
    if get_bit ins 24 == 1
    then if get_bit ins 21 == 0
      then offset_mode p u rn value
      else pre_indexed p u rn_register rn value
    else if get_bit ins 21 == 0
    then post_indexed p u rn_register rn value
    else record (unassigned t p) { status = undefined_instruction }

-- With an offset register that is shifted; P = 0 and W = 1 leaves `address` unassigned.
unfoldable pub scaled_address : Target → Arm → ℕ → Addressed
scaled_address t p ins =
    let rn_register = get_bits ins 19 16 in
    let rn = arm_read_register p rn_register in
    let u = get_bit ins 23 in
    let rm_val = arm_read_register p (get_bits ins 3 0) in
    let index = shift_operation t p rm_val (get_bits ins 6 5) (get_bits ins 11 7) in
    if get_bit ins 24 == 1
    then if get_bit ins 21 == 0
      then offset_mode p u rn index
      else pre_indexed p u rn_register rn index
    else if get_bit ins 21 == 0
    then post_indexed p u rn_register rn index
    else unassigned t p

-- The addressing modes of LDRH and STRH; bits 22 and 21 choose an immediate and a write-back.
unfoldable pub half_address : Target → Arm → ℕ → Addressed
half_address t p ins =
    let rn_register = get_bits ins 19 16 in
    let rn = arm_read_register p rn_register in
    let u = get_bit ins 23 in
    let rm_val = arm_read_register p (get_bits ins 3 0) in
    let offset_8 = bit_or (shl32 (get_bits ins 11 8) 4) (get_bits ins 3 0) in
    let bits = get_bits ins 22 21 in
    if get_bit ins 24 == 1
    then if bits == 2
      then offset_mode p u rn offset_8
      else if bits == 0
      then offset_mode p u rn rm_val
      else if bits == 3
      then pre_indexed p u rn_register rn offset_8
      else if bits == 1
      then pre_indexed p u rn_register rn rm_val
      else unassigned t p
    else if bits == 2
    then post_indexed p u rn_register rn offset_8
    else if bits == 0
    then post_indexed p u rn_register rn rm_val
    else unassigned t p

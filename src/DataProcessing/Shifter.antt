-- ===== src/DataProcessing/Shifter.antt =====
-- The shifter operand of `arm_data_processing_shift`, with its carry: one function for each of the
-- eight addressing modes, and the choice between them.
use arm_simulator.Base.{
  ℕ, ◌-◌, add32, shl32, shr32, ltb, ◌==◌, if◌then◌else◌, ◌||◌, bit_or, Option, none, some,
}
use arm_simulator.Constants.{c_flag}
use arm_simulator.Util.{get_bit, get_bits, asr, ror}
use arm_simulator.Core.{Arm, Target, arm_read_register, arm_read_cpsr}

-- Rm, the amount, and C, to the operand and its carry.
unfoldable pub lsl_by_immediate : ℕ → ℕ → ℕ → ℕ × ℕ
lsl_by_immediate rm imm c = if imm == 0 then (rm, c) else (shl32 rm imm, get_bit rm (32 - imm))

unfoldable pub lsl_by_register : ℕ → ℕ → ℕ → ℕ × ℕ
lsl_by_register rm amount c =
    if amount == 0
    then (rm, c)
    else if ltb amount 32
    then (shl32 rm amount, get_bit rm (32 - amount))
    else if amount == 32
    then (0, get_bit rm 0)
    else (0, 0)

unfoldable pub lsr_by_immediate : ℕ → ℕ → ℕ × ℕ
lsr_by_immediate rm imm =
    if imm == 0 then (0, get_bit rm 31) else (shr32 rm imm, get_bit rm (imm - 1))

unfoldable pub lsr_by_register : ℕ → ℕ → ℕ → ℕ × ℕ
lsr_by_register rm amount c =
    if amount == 0
    then (rm, c)
    else if ltb amount 32
    then (shr32 rm amount, get_bit rm (amount - 1))
    else if amount == 32
    then (0, get_bit rm 31)
    else (0, 0)

-- All bits the sign bit.
abbrev pub sign_fill : ℕ → ℕ × ℕ
sign_fill rm = if get_bit rm 31 == 0 then (0, 0) else (0xFFFFFFFF, 1)

module _ (wide : ℕ → ℕ → ℕ) where
  unfoldable pub asr_by_immediate : ℕ → ℕ → ℕ × ℕ
  asr_by_immediate rm imm =
      if imm == 0 then sign_fill rm else (asr wide rm imm, get_bit rm (imm - 1))

  unfoldable pub asr_by_register : ℕ → ℕ → ℕ → ℕ × ℕ
  asr_by_register rm amount c =
      if amount == 0
      then (rm, c)
      else if ltb amount 32
      then (asr wide rm amount, get_bit rm (amount - 1))
      else sign_fill rm

  -- An amount of 0 is a rotation with extend, through the carry.
  unfoldable pub ror_by_immediate : ℕ → ℕ → ℕ → ℕ × ℕ
  ror_by_immediate rm imm c =
      if imm == 0
      then (bit_or (shl32 c 31) (shr32 rm 1), get_bit rm 0)
      else (ror wide rm imm, get_bit rm (imm - 1))

  -- `low` is Rs[4:0] where `amount` is Rs[7:0].
  unfoldable pub ror_by_register : ℕ → ℕ → ℕ → ℕ → ℕ × ℕ
  ror_by_register rm amount low c =
      if amount == 0
      then (rm, c)
      else if low == 0
      then (rm, get_bit rm 31)
      else (ror wide rm low, get_bit rm (low - 1))

-- `none` is the return of UNDEFINED_INSTRUCTION.
unfoldable pub shifter : Target → Arm → ℕ → Option (ℕ × ℕ)
shifter t p ins =
    let c = get_bit (arm_read_cpsr p) c_flag in
    let rn = get_bits ins 19 16 in
    let rd = get_bits ins 15 12 in
    let code = get_bits ins 11 0 in
    let imm = get_bits ins 11 7 in
    let rm = get_bits ins 3 0 in
    let rm_value = arm_read_register p rm in
    let rs = get_bits ins 11 8 in
    let rs_value = arm_read_register p rs in
    let amount = get_bits rs_value 7 0 in
    let immediate_rm =
      if rm == 15 || rn == 15 then add32 (arm_read_register p 15) 4 else rm_value in
    let uses_pc = rd == 15 || rm == 15 || rn == 15 || rs == 15 in
    let kind = get_bits code 6 4 in
    let kind_by_register = get_bits code 7 4 in
    if kind == 0
    then some (lsl_by_immediate immediate_rm imm c)
    else if kind_by_register == 1
    then (if uses_pc then none else some (lsl_by_register rm_value amount c))
    else if kind == 2
    then some (lsr_by_immediate immediate_rm imm)
    else if kind_by_register == 3
    then (if uses_pc then none else some (lsr_by_register rm_value amount c))
    else if kind == 4
    then some (asr_by_immediate t.wide immediate_rm imm)
    else if kind_by_register == 5
    then (if uses_pc then none else some (asr_by_register t.wide rm_value amount c))
    else if kind == 6
    then some (ror_by_immediate t.wide immediate_rm imm c)
    else if kind_by_register == 7
    then (if uses_pc
        then none
        else some (ror_by_register t.wide rm_value amount (get_bits rs_value 4 0) c))
    else none

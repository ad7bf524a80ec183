-- ===== src/DataProcessing/Operand.antt =====
-- The shifter operand of an instruction, as `arm_data_processing_shift` decodes it, against the
-- shifts of the architecture; which register is shifted is as in the source.
use arm_simulator.Base.{
  ℕ, ◌+◌, ◌*◌, ◌/◌, ◌%◌, ◌^◌, ◌<◌, ◌≡◌, arith, ◌==◌, if◌then◌else◌, ◌||◌, Bool, add32, Option, some,
  none,
}
use arm_simulator.Constants.{c_flag}
use arm_simulator.Util.{get_bit, get_bits}
use arm_simulator.Util.Fields.{get_bits_lem}
use arm_simulator.Core.{Arm, Target, arm_read_register, arm_read_cpsr}
use arm_simulator.Core.Valid.{IsValid, read_register-lt}
use arm_simulator.DataProcessing.{shifter}
use arm_simulator.DataProcessing.Serial.{Shift, shifted}
use arm_simulator.DataProcessing.Reference.{
  places, lsl_by_immediate-shifted, lsl_by_register-shifted, lsr_by_immediate-shifted,
  lsr_by_register-shifted, asr_by_immediate-shifted, asr_by_register-shifted,
  ror_by_immediate-shifted, ror_by_register-shifted,
}

-- A field of `w` bits from bit `l`.
abbrev pub field : ℕ → ℕ → ℕ → ℕ
field ins l w = ins / 2 ^ l % 2 ^ w

-- Bits 6 and 5.
abbrev pub kind_of : ℕ → Shift
kind_of k =
    if k == 0
    then Shift.logical_left
    else if k == 1
    then Shift.logical_right
    else if k == 2
    then Shift.arithmetic_right
    else Shift.rotate_right

-- The number of places of an immediate, and ROR by 0, which is RRX.
abbrev pub shifted_by_immediate : ℕ → ℕ → ℕ × ℕ → ℕ × ℕ
shifted_by_immediate k imm start =
    if k == 0
    then shifted Shift.logical_left imm start
    else if k == 1
    then shifted Shift.logical_right (places imm) start
    else if k == 2
    then shifted Shift.arithmetic_right (places imm) start
    else if imm == 0
    then shifted Shift.rotate_extend 1 start
    else shifted Shift.rotate_right imm start

module _ (p : Arm) (ins : ℕ) where
  abbrev pub reg_field : ℕ → ℕ
  reg_field l = arm_read_register p (field ins l 4)

  -- Rm, or the PC twelve bytes further when Rm or Rn is the PC.
  abbrev pub immediate_source : ℕ
  immediate_source =
      if field ins 0 4 == 15 || field ins 16 4 == 15
      then add32 (arm_read_register p 15) 4
      else reg_field 0

  -- Whether one of Rd, Rm, Rn and Rs is the PC.
  abbrev pub names_pc : Bool
  names_pc =
      field ins 12 4 == 15 || field ins 0 4 == 15 || field ins 16 4 == 15 || field ins 8 4 == 15

  abbrev pub operand_of : Option (ℕ × ℕ)
  operand_of =
      let c = get_bit (arm_read_cpsr p) c_flag in
      if field ins 4 1 == 0
      then some (shifted_by_immediate (field ins 5 2) (field ins 7 5) (immediate_source, c))
      else if field ins 7 1 == 0
      then if names_pc
        then none
        else some (shifted (kind_of (field ins 5 2)) (field (reg_field 8) 0 8) (reg_field 0, c))
      else none

-- The chain of tests on bits 6 to 4 and 7 to 4, at any results of the eight modes.
module _ (k6 k7 b4 k b7 : ℕ) (e6 : k6 ≡ k * 2 + b4) (e7 : k7 ≡ b7 * 8 + k * 2 + b4) (h4 : b4 < 2)
    (hk : k < 4) (h7 : b7 < 2) (pc : Bool) (i0 i1 i2 i3 : ℕ × ℕ) (s : Shift → ℕ × ℕ) where
  modes-eq :
      (if k6 == 0
        then some i0
        else if k7 == 1
        then (if pc then none else some (s Shift.logical_left))
        else if k6 == 2
        then some i1
        else if k7 == 3
        then (if pc then none else some (s Shift.logical_right))
        else if k6 == 4
        then some i2
        else if k7 == 5
        then (if pc then none else some (s Shift.arithmetic_right))
        else if k6 == 6
        then some i3
        else if k7 == 7
        then (if pc then none else some (s Shift.rotate_right))
        else none)
      ≡ (if b4 == 0
          then some (if k == 0 then i0 else if k == 1 then i1 else if k == 2 then i2 else i3)
          else if b7 == 0
          then (if pc then none else some (s (kind_of k)))
          else none)
  modes-eq = ground arith

-- The shifter operand and its carry, or that the instruction is undefined, as the architecture's
-- shifts by one place give them.
pub shifter-operand_of :
    {size cycle : ℕ} (t : Target) {p : Arm} (ins : ℕ)
    → IsValid size cycle p
    → shifter t p ins ≡ operand_of p ins
unfolding shifter
shifter-operand_of t {p} ins v =
    let c = get_bit (arm_read_cpsr p) c_flag in
    let x = reg_field p ins 0 in
    let y = immediate_source p ins in
    let imm = field ins 7 5 in
    let amount = field (reg_field p ins 8) 0 8 in
    let hx : x < 2 ^ 32 = read_register-lt v _ in
    let hy : y < 2 ^ 32 = ground (arith, hx) in
    let few : imm < 32 = omega arith in
    let low : field (reg_field p ins 8) 0 5 ≡ amount % 32 = omega arith in
    rw
      (
        get_bits_lem (get_bits ins 11 0) 6 4 (omega arith),
        get_bits_lem (get_bits ins 11 0) 7 4 (omega arith),
        get_bits_lem ins 11 0 (omega arith),
        get_bits_lem ins 3 0 (omega arith),
        get_bits_lem ins 19 16 (omega arith),
        get_bits_lem ins 15 12 (omega arith),
        get_bits_lem ins 11 8 (omega arith),
        get_bits_lem ins 11 7 (omega arith),
        get_bits_lem (reg_field p ins 8) 7 0 (omega arith),
        get_bits_lem (reg_field p ins 8) 4 0 (omega arith),
      )
      (rw
        (
          low,
          lsl_by_immediate-shifted y c hy imm few,
          lsl_by_register-shifted x c hx amount,
          lsr_by_immediate-shifted y c hy imm few,
          lsr_by_register-shifted x c hx amount,
          asr_by_immediate-shifted y c hy t.wide imm few,
          asr_by_register-shifted x c hx t.wide amount,
          ror_by_immediate-shifted y c hy t.wide imm few (omega arith),
          ror_by_register-shifted t.wide x c hx amount,
        )
        (modes-eq (field (field ins 0 12) 4 3) (field (field ins 0 12) 4 4) (field ins 4 1)
          (field ins 5 2) (field ins 7 1) (omega arith) (omega arith) (omega arith) (omega arith)
          (omega arith) (names_pc p ins) _ _ _ _ (λ (s : Shift). shifted s amount (x, c))))

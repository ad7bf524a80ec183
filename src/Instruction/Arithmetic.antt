-- ===== src/Instruction/Arithmetic.antt =====
-- arm_step of arm_instruction.c on the data processing instructions.
use arm_simulator.Base.{ℕ, ◌≡◌, ◌≢◌, ◌⊎◌, ◌==◌, if◌then◌else◌, Option, some}
use arm_simulator.DataProcessing.Specified.{specified}
use arm_simulator.Constants.{c_flag, v_flag}
use arm_simulator.Util.{get_bit}
use arm_simulator.Registers.{registers_get_mode}
use arm_simulator.Registers.Banks.{IsMode}
use arm_simulator.Core.{Arm, Target, arm_read_register, arm_read_cpsr}
use arm_simulator.Core.Valid.{IsValid}
use arm_simulator.DataProcessing.{AluOut, arm_data_processing_shift, arm_data_processing_immediate}
use arm_simulator.DataProcessing.Operand.{field, operand_of}
use arm_simulator.DataProcessing.Immediate.{immediate_of}

-- The encodings of ARM manual A3-2: an immediate, or a register that is not shifted by a register
-- with bit 7 set; a comparison has S.
abbrev pub IsDataProcessing : ℕ → Type 0
IsDataProcessing ins =
    ((field ins 25 3 ≡ 1) ⊎ ((field ins 25 3 ≡ 0) × ((field ins 4 1 ≡ 0) ⊎ (field ins 7 1 ≡ 0))))
    × ((field ins 23 2 ≢ 2) ⊎ (field ins 20 1 ≡ 1))

-- The second operand and its carry.
abbrev pub second_operand : Arm → ℕ → Option (ℕ × ℕ)
second_operand p ins = if field ins 25 3 == 1 then some (immediate_of p ins) else operand_of p ins

-- What the handler of a data processing instruction does.
module _ {size cycle : ℕ} (t : Target) {u : Arm} (ins : ℕ) (v : IsValid size cycle u)
    (m : IsMode (registers_get_mode u.reg)) (n : field ins 12 4 ≢ 15) where
  abbrev out_of : ℕ × ℕ → AluOut
  out_of (operand, carry) =
      let cpsr = arm_read_cpsr u in
      specified (field ins 21 4) (arm_read_register u (field ins 16 4)) operand carry
        (get_bit cpsr c_flag) (get_bit cpsr v_flag)

  abbrev handled : ℕ × Arm
  handled =
      if field ins 25 3 == 1
      then arm_data_processing_immediate t u ins
      else arm_data_processing_shift t u ins

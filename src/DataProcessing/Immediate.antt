-- ===== src/DataProcessing/Immediate.antt =====
-- arm_data_processing.c: the operand of an immediate, eight bits rotated by an even number of places.
use arm_simulator.Base.{ℕ, ◌*◌}
use arm_simulator.Constants.{c_flag}
use arm_simulator.Util.{get_bit}
use arm_simulator.Core.{Arm, arm_read_cpsr}
use arm_simulator.DataProcessing.Serial.{Shift, shifted}
use arm_simulator.DataProcessing.Operand.{field}

-- The operand of an immediate and its carry.
abbrev pub immediate_of : Arm → ℕ → ℕ × ℕ
immediate_of p ins =
    shifted Shift.rotate_right (field ins 8 4 * 2) (field ins 0 8, get_bit (arm_read_cpsr p) c_flag)

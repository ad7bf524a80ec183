-- ===== src/DataProcessing/Carry.antt =====
-- arm_data_processing.c: the bounds of a second operand and of its carry.
use arm_simulator.Base.{none, Bool, true, false, ◌^◌, ℕ, ◌<◌, ◌≡◌, arith, ◌==◌, if◌then◌else◌, some}
use mathlib.Core.Path.{subst}
use mathlib.Core.Option.{some-injective, none-ne-some}
use arm_simulator.Constants.{c_flag}
use arm_simulator.Util.{get_bit}
use arm_simulator.Core.{Arm, arm_read_cpsr}
use arm_simulator.Core.Valid.{IsValid, read_register-lt}
use arm_simulator.DataProcessing.Serial.{Shift, shifted, shifted-lt}
use arm_simulator.DataProcessing.Reference.{places}
use arm_simulator.DataProcessing.Operand.{
  kind_of, names_pc, reg_field, immediate_source, shifted_by_immediate, operand_of, field,
}

-- A word, and a bit for its carry.
abbrev Bounded : ℕ × ℕ → Type 0
Bounded s = (s.0 < 2 ^ 32) × (s.1 < 2)

immediate-Bounded :
    (k imm x c : ℕ) → x < 2 ^ 32 → c < 2 → Bounded (shifted_by_immediate k imm (x, c))
immediate-Bounded k imm x c h b = ground (
  arith,
  shifted-lt Shift.logical_left imm x c h b,
  shifted-lt Shift.logical_right (places imm) x c h b,
  shifted-lt Shift.arithmetic_right (places imm) x c h b,
  shifted-lt Shift.rotate_extend 1 x c h b,
  shifted-lt Shift.rotate_right imm x c h b,
)

-- An operand of the two forms.
one_of_two :
    (b4 b7 pc : Bool) (i r s : ℕ × ℕ)
    → Bounded i
    → Bounded r
    → (if b4 then some i else if b7 then if pc then none else some r else none) ≡ some s
    → Bounded s
one_of_two true b7 pc i r s hi hr e = subst Bounded (some-injective i s e) hi
one_of_two false true false i r s hi hr e = subst Bounded (some-injective r s e) hr
one_of_two false true true i r s hi hr e = absurd (none-ne-some s e)
one_of_two false false pc i r s hi hr e = absurd (none-ne-some s e)

pub operand_of-lt :
    {size cycle : ℕ} {p : Arm} (ins operand carry : ℕ)
    → IsValid size cycle p
    → operand_of p ins ≡ some (operand, carry)
    → (operand < 2 ^ 32) × (carry < 2)
operand_of-lt {p = p} ins operand carry v e =
    let c = get_bit (arm_read_cpsr p) c_flag in
    let start-lt : immediate_source p ins < 2 ^ 32 =
      ground (arith, read_register-lt v (field ins 0 4)) in
    let register =
      shifted-lt (kind_of (field ins 5 2)) (field (reg_field p ins 8) 0 8) (reg_field p ins 0) c
        (read_register-lt v (field ins 0 4)) (omega arith) in
    one_of_two (field ins 4 1 == 0) (field ins 7 1 == 0) (names_pc p ins)
      (shifted_by_immediate (field ins 5 2) (field ins 7 5) (immediate_source p ins, c))
      (shifted (kind_of (field ins 5 2)) (field (reg_field p ins 8) 0 8) (reg_field p ins 0, c))
      (operand, carry)
      (immediate-Bounded (field ins 5 2) (field ins 7 5) (immediate_source p ins) c start-lt
        (omega arith))
      register e

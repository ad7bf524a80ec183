-- ===== src/DataProcessing/Return.antt =====
-- arm_data_processing.c: S with the PC as destination, the return from an exception.
use arm_simulator.Base.{ℕ, ◌%◌, ◌^◌, ◌<◌, ◌≡◌, refl, ◌∙◌, ap, sym}
use arm_simulator.Constants.{c_flag, v_flag}
use arm_simulator.Util.{get_bit}
use arm_simulator.Registers.{
  registers_get_mode, registers_mode_has_spsr, registers_read_spsr, registers_current_mode_has_spsr,
  registers_read_cpsr, registers_write_cpsr,
}
use arm_simulator.Registers.Valid as RegistersValid
use arm_simulator.Registers.Spsr.{IsExceptionMode, mode_has_spsr_overwrites}
use arm_simulator.Core.{
  Arm, arm_read_cpsr, arm_write_cpsr, arm_read_spsr, arm_current_mode_has_spsr,
}
use arm_simulator.Core.Valid.{IsValid, parts}
use arm_simulator.DataProcessing.{
  AluOut, alu, opcode_of, data_processing, write_flags, write_result,
}
use arm_simulator.DataProcessing.Valid.{alu-lt, write_result-IsValid}
use arm_simulator.DataProcessing.Flags.{write_result-cpsr, cpsr-write_cpsr}

-- The test for an SPSR and the return that follows, in an exception mode.
module _ (p : Arm) (v : RegistersValid.IsValid p.reg)
    (m : IsExceptionMode (registers_get_mode p.reg)) where
  answers : (arm_current_mode_has_spsr p).0 ≡ 1
  unfolding arm_current_mode_has_spsr registers_current_mode_has_spsr
  answers = (mode_has_spsr_overwrites (registers_get_mode p.reg) v m).0

  restored : arm_read_spsr (arm_current_mode_has_spsr p).1 ≡ arm_read_cpsr p
  unfolding arm_current_mode_has_spsr registers_current_mode_has_spsr arm_read_spsr arm_read_cpsr
      registers_read_cpsr
  restored =
      let (_, saved, status, _) = mode_has_spsr_overwrites (registers_get_mode p.reg) v m in
      let r1 = (registers_mode_has_spsr p.reg (registers_get_mode p.reg)).1 in
      let mode : registers_get_mode r1 ≡ registers_get_mode p.reg =
        RegistersValid.get_mode-eq r1
        ∙ ap (λ (c : ℕ). c % 32) status
        ∙ sym (RegistersValid.get_mode-eq p.reg) in
      ap (registers_read_spsr r1) mode ∙ saved

  returned-cpsr :
      (cpsr : ℕ) (out : AluOut)
      → let (status, q) = write_flags p cpsr 1 15 out in
        (status ≡ 0) × (arm_read_cpsr q ≡ arm_read_cpsr p)
  unfolding write_flags arm_write_cpsr registers_write_cpsr
  returned-cpsr cpsr out = rw answers (refl, reads)
    where
      reads :
          arm_read_cpsr (
            arm_write_cpsr
              (arm_current_mode_has_spsr p).1
              (arm_read_spsr (arm_current_mode_has_spsr p).1))
          ≡ arm_read_cpsr p
      reads =
          let p1 = (arm_current_mode_has_spsr p).1 in
          cpsr-write_cpsr p1 (arm_read_spsr p1) ∙ restored

-- The mode is in the CPSR.
same_mode :
    (p p1 : Arm)
    → arm_read_cpsr p1 ≡ arm_read_cpsr p
    → IsExceptionMode (registers_get_mode p.reg)
    → IsExceptionMode (registers_get_mode p1.reg)
unfolding arm_read_cpsr registers_read_cpsr
same_mode p p1 e n =
    let same : registers_get_mode p1.reg ≡ registers_get_mode p.reg =
      RegistersValid.get_mode-eq p1.reg
      ∙ ap (λ (c : ℕ). c % 32) e
      ∙ sym (RegistersValid.get_mode-eq p.reg) in
    rw same n

-- A data processing instruction with S and the PC as destination, in a valid processor that is in
-- an exception mode, succeeds and leaves the CPSR as it was, whatever the SPSR of the mode held.
pub data_processing-return :
    {size cycle : ℕ} {p : Arm} (opcode rn operand sc : ℕ)
    → IsValid size cycle p
    → IsExceptionMode (registers_get_mode p.reg)
    → rn < 2 ^ 32
    → operand < 2 ^ 32
    → let (status, q) = data_processing p 1 opcode 15 rn operand sc in
      (status ≡ 0) × (arm_read_cpsr q ≡ arm_read_cpsr p)
unfolding data_processing
data_processing-return {p} opcode rn operand sc v m a b =
    let cpsr = arm_read_cpsr p in
    let c = get_bit cpsr c_flag in
    let w = get_bit cpsr v_flag in
    let out = alu (opcode_of opcode) rn operand sc c w in
    let p1 = write_result p 15 out in
    let kept = write_result-cpsr p 15 out in
    let valid1 = write_result-IsValid v 15 out (alu-lt (opcode_of opcode) rn operand sc c w a b) in
    let (ok, status) = returned-cpsr p1 (parts valid1).registers (same_mode p p1 kept m) cpsr out in
    (ok, status ∙ kept)

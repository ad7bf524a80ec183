-- ===== src/DataProcessing/Result.antt =====
-- arm_data_processing.c: the registers, the memory and the mode after an instruction with a shifted
-- register.
use arm_simulator.Base.{
  zero, suc, ◌%◌, ◌^◌, ℕ, ◌<◌, ◌≡◌, ◌≢◌, refl, sym, ◌∙◌, arith, ◌==◌, if◌then◌else◌, Bool-cases,
  inl, inr, ==_ne,
}
use mathlib.Core.Path.{subst}
use arm_simulator.DataProcessing.Specified.{specified, alu-specified}
use arm_simulator.Constants.{c_flag, v_flag}
use arm_simulator.Util.{get_bit}
use arm_simulator.Registers.{
  registers_read, registers_write, registers_get_mode, registers_write_cpsr, registers_read_cpsr,
}
use arm_simulator.Registers.Banks.{IsMode, read-write_same_mode}
use arm_simulator.Registers.Valid as RegistersValid
use arm_simulator.Core.{
  Arm, arm_read_cpsr, arm_write_register, arm_write_register_internal, arm_write_cpsr,
}
use arm_simulator.Core.Valid.{IsValid, parts}
use arm_simulator.DataProcessing.{
  AluOut, alu, opcode_of, data_processing, write_result, write_flags, new_cpsr,
}
use arm_simulator.DataProcessing.Flags.{HasFlags, alu_bits, new_cpsr-HasFlags, new_cpsr-low}

-- What an operation that writes `out` to Rd may change, with S or without.
pub record Wrote (p : Arm) (s_bit rd : ℕ) (out : AluOut) (q : Arm) : Type 0 where
  pub same_memory : q.mem ≡ p.mem
  pub same_cycle : q.cycle_count ≡ p.cycle_count
  pub same_mode : registers_get_mode q.reg ≡ registers_get_mode p.reg
  pub registers :
      (reg : ℕ)
      → reg < 16
      → registers_read q.reg reg (registers_get_mode p.reg) ≡ (
          if out.change_rd == 0
          then registers_read p.reg reg (registers_get_mode p.reg)
          else if rd == reg
          then out.result
          else registers_read p.reg reg (registers_get_mode p.reg))
  pub same_status : s_bit ≡ 0 → arm_read_cpsr q ≡ arm_read_cpsr p
  pub new_flags : s_bit ≡ 1 → HasFlags (arm_read_cpsr q) out
  pub low_status : arm_read_cpsr q % 2 ^ 28 ≡ arm_read_cpsr p % 2 ^ 28

module _ {size cycle : ℕ} {p : Arm} (v : IsValid size cycle p)
    (m : IsMode (registers_get_mode p.reg)) (rd : ℕ) (h : rd < 16) (out : AluOut) where
  abbrev mode : ℕ
  mode = registers_get_mode p.reg

  written :
      (reg : ℕ)
      → reg < 16
      → registers_read (registers_write p.reg rd mode out.result) reg mode
        ≡ (if rd == reg then out.result else registers_read p.reg reg mode)
  written reg le = read-write_same_mode rd mode out.result reg (parts v).registers h le m

  write-mode : registers_get_mode (registers_write p.reg rd mode out.result) ≡ mode
  unfolding registers_get_mode registers_write
  write-mode = ground arith

  write-cpsr :
      arm_read_cpsr (record p { reg = registers_write p.reg rd mode out.result }) ≡ arm_read_cpsr p
  unfolding arm_read_cpsr registers_read_cpsr registers_write
  write-cpsr = ground arith

  pub write_result-Wrote : Wrote p 0 rd out (write_result p rd out)
  unfolding write_result arm_write_register arm_write_register_internal
  write_result-Wrote = elim (Bool-cases (out.change_rd == 0)) [
    | inl keeps ↦ rw keeps (record {
      same_memory = refl;
      same_cycle = refl;
      same_mode = refl;
      registers = λ reg le. rw keeps refl;
      same_status = λ _. refl;
      new_flags = λ e. absurd (omega arith);
      low_status = refl;
    })
    | inr writes ↦ rw writes (record {
      same_memory = refl;
      same_cycle = refl;
      same_mode = write-mode;
      registers = λ reg le. rw writes (written reg le);
      same_status = λ _. write-cpsr;
      new_flags = λ e. absurd (omega arith);
      low_status = rw write-cpsr refl;
    })
  ]

-- The flags are what is left to write.
module _ {p p1 : Arm} (rd : ℕ) (out : AluOut) (hc : out.carry < 2) (hv : out.overflow < 2)
    (w : Wrote p 0 rd out p1) where
  flags-Wrote : Wrote p 1 rd out (arm_write_cpsr p1 (new_cpsr (arm_read_cpsr p) out))
  unfolding arm_write_cpsr registers_write_cpsr registers_read arm_read_cpsr registers_read_cpsr
  flags-Wrote = record {
    same_memory = w.same_memory;
    same_cycle = w.same_cycle;
    same_mode =
        RegistersValid.get_mode-eq (registers_write_cpsr p1.reg (new_cpsr p.reg.cpsr out))
        ∙ omega (arith, new_cpsr-low p.reg.cpsr out)
        ∙ sym (RegistersValid.get_mode-eq p.reg);
    registers = w.registers;
    same_status = λ e. absurd (omega arith);
    new_flags = λ _. new_cpsr-HasFlags p.reg.cpsr out hc hv;
    low_status = new_cpsr-low p.reg.cpsr out;
  }

  -- With the destination not the PC.
  pub write_flags-Wrote :
      (s_bit : ℕ)
      → s_bit < 2
      → rd ≢ 15
      → let (status, q) = write_flags p1 (arm_read_cpsr p) s_bit rd out in
        (status ≡ 0) × Wrote p s_bit rd out q
  unfolding write_flags
  write_flags-Wrote zero h n = (refl, w)
  write_flags-Wrote (suc zero) h n = rw (==_ne rd 15 n) (refl, flags-Wrote)
  write_flags-Wrote (suc (suc s)) h n = absurd (omega arith)

-- data_processing, whatever the operand.
pub data_processing-Wrote :
    {size cycle : ℕ} {p : Arm} (s_bit opcode rd rn operand carry : ℕ)
    → IsValid size cycle p
    → IsMode (registers_get_mode p.reg)
    → s_bit < 2
    → opcode < 16
    → rd < 16
    → rd ≢ 15
    → rn < 2 ^ 32
    → operand < 2 ^ 32
    → carry < 2
    → let cpsr = arm_read_cpsr p in
      let out = specified opcode rn operand carry (get_bit cpsr c_flag) (get_bit cpsr v_flag) in
      let (status, q) = data_processing p s_bit opcode rd rn operand carry in
      (status ≡ 0) × Wrote p s_bit rd out q
unfolding data_processing
data_processing-Wrote {p = p} s_bit opcode rd rn operand carry v m hs ho h n hr hp hc =
    let c = get_bit (arm_read_cpsr p) c_flag in
    let o = get_bit (arm_read_cpsr p) v_flag in
    let out = alu (opcode_of opcode) rn operand carry c o in
    let (carry-lt, overflow-lt) =
      alu_bits (opcode_of opcode) rn operand carry c o hc (omega arith) in
    let (status, q) = data_processing p s_bit opcode rd rn operand carry in
    subst (λ (x : AluOut). (status ≡ 0) × Wrote p s_bit rd x q)
      (alu-specified opcode rn operand carry c o ho hr hp (omega arith))
      (write_flags-Wrote rd out carry-lt overflow-lt (write_result-Wrote v m rd h out) s_bit hs n)

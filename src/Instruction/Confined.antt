-- ===== src/Instruction/Confined.antt =====
-- arm_instruction.c in user mode: what an instruction cannot reach.
use arm_simulator.Base.{
  ℕ, zero, ◌%◌, ◌^◌, ◌<◌, ◌≡◌, ◌≢◌, refl, arith, u8, ◌==◌, if◌then◌else◌, Option, none, some,
  Bool-cases, inl, inr, ap,
}
use mathlib.Core.Path.{subst}
use arm_simulator.Constants.{undefined_instruction, usr}
use arm_simulator.Registers.{Registers, registers_get_mode, registers_read, registers_read_spsr}
use arm_simulator.Registers.Banks.{IsMode, bank, shared}
use arm_simulator.Registers.Confined.{Kept-same, get_mode-user, banked_read, saved_read}
use arm_simulator.Core.{Arm, Target, value_local, arm_fetch}
use arm_simulator.Core.Valid.{IsValid}
use arm_simulator.Core.Confined.{
  Confined, confined, Confined-Kept, Leaves, leaves, at_end, fetch-Confined,
}
use arm_simulator.Exception.{arm_exception}
use arm_simulator.Branch.Confined.{
  arm_branch-Confined, arm_miscellaneous-Confined, arm_coprocessor_others_swi-Confined,
}
use arm_simulator.Branch.{arm_branch, arm_coprocessor_others_swi}
use arm_simulator.DataProcessing.{arm_data_processing_immediate_msr}
use arm_simulator.DataProcessing.Confined.{
  arm_data_processing_immediate_msr-Confined, arm_data_processing_shift-Confined,
}
use arm_simulator.LoadStore.{arm_load_store, arm_coprocessor_load_store}
use arm_simulator.LoadStore.Confined.{arm_load_store-Confined}
use arm_simulator.LoadStore.Multiple.Confined.{arm_load_store_multiple-Leaves}
use arm_simulator.Instruction.{
  execute_000, execute_decoded, instruction_cond, arm_execute_instruction, arm_step,
}
use arm_simulator.Instruction.Valid.{arm_execute_instruction-Returns}

module _ {r : Registers} {p : Arm} (t : Target) (ins : ℕ) (c : Confined r p) where
  execute_000-Confined : Confined r (execute_000 t p ins).1
  unfolding execute_000
  execute_000-Confined = ground (
    arith,
    c,
    arm_load_store-Confined c t ins,
    arm_miscellaneous-Confined c ins,
    arm_data_processing_shift-Confined c t ins,
  )

  went : (o : ℕ × Arm) → Confined r o.1 → Leaves r (some o)
  went (status, q) w = leaves status q w

  execute_decoded-Leaves : Leaves r (execute_decoded t p ins)
  unfolding execute_decoded arm_coprocessor_load_store
  execute_decoded-Leaves = ground (
    arith,
    went (undefined_instruction, p) c,
    went (execute_000 t p ins) execute_000-Confined,
    went (arm_data_processing_immediate_msr t p ins)
        (arm_data_processing_immediate_msr-Confined c t ins),
    went (arm_load_store t p ins) (arm_load_store-Confined c t ins),
    arm_load_store_multiple-Leaves t ins c,
    went (arm_branch p ins) (arm_branch-Confined c ins),
    went (arm_coprocessor_others_swi p ins) (arm_coprocessor_others_swi-Confined c ins),
  )

module _ {r : Registers} {p : Arm} (t : Target) (c : Confined r p) where
  arm_execute_instruction-Leaves : Leaves r (arm_execute_instruction t p)
  unfolding arm_execute_instruction
  arm_execute_instruction-Leaves =
      let (_, instruction, p1) = arm_fetch t p (t.uninit value_local p) in
      let w = fetch-Confined c t (t.uninit value_local p) in
      elim (Bool-cases (instruction_cond p1 instruction)) [
        | inl e ↦ rw (e, arm_execute_instruction) (execute_decoded-Leaves t instruction w)
        | inr e ↦ rw (e, arm_execute_instruction) (leaves zero p1 w)
      ]

-- The processor `q` is in user mode like `p`, with the same control bits, the same registers of the
-- exception modes and the same SPSRs.
pub record Isolated (p q : Arm) : Type 0 where
  pub in_user : registers_get_mode q.reg ≡ usr
  pub control_kept : q.reg.cpsr % 2 ^ 28 ≡ p.reg.cpsr % 2 ^ 28
  pub banks_kept :
      (reg mode : ℕ)
      → reg < 16
      → IsMode mode
      → bank reg mode ≢ shared
      → registers_read q.reg reg mode ≡ registers_read p.reg reg mode
  pub saved_kept : (mode : ℕ) → registers_read_spsr q.reg mode ≡ registers_read_spsr p.reg mode

abbrev taken : Arm → Option (ℕ × Arm) → Arm
taken p none = p
taken p (some (status, q)) = q

Leaves-Confined :
    {r : Registers} (o : Option (ℕ × Arm)) (status : ℕ) (q : Arm)
    → Leaves r o
    → o ≡ some (status, q)
    → Confined r q
Leaves-Confined {r} o status q (leaves status' p c) e = subst (Confined r) (ap (taken q) e) c
Leaves-Confined o status q at_end e = absurd (cc)

Confined-Isolated : {p q : Arm} → Confined p.reg q → Isolated p q
Confined-Isolated c =
    let k = Confined-Kept c in
    record {
      in_user = get_mode-user k;
      control_kept = k.control;
      banks_kept = λ reg mode h m n. banked_read k reg mode h m n;
      saved_kept = saved_read k;
    }

-- An instruction of a valid processor in user mode returns, and afterwards the mode, the interrupt masks and all the
-- control bits below the flags, every register of the exception modes and every SPSR are as they
-- were; only an exception, which `arm_step` raises then for a result that is not 0, leaves user
-- mode.
pub arm_step-Isolated :
    {size cycle : ℕ} {p : Arm} (t : Target)
    → IsValid size cycle p
    → registers_get_mode p.reg ≡ usr
    → (status : ℕ) × (q : Arm) × (arm_step t p
        ≡ some (if status == 0 then (status, q) else arm_exception t q (u8 status)))
      × Isolated p q
unfolding arm_step
arm_step-Isolated {p = p} t v user =
    let ((status, q), e, w) = arm_execute_instruction-Returns t v in
    let c = arm_execute_instruction-Leaves t (confined (Kept-same p.reg user)) in
    (
      status,
      q,
      rw (e, arm_step) (elim (Bool-cases (status == 0)) [ inl z ↦ rw z refl | inr z ↦ rw z refl ]),
      Confined-Isolated (Leaves-Confined (arm_execute_instruction t p) status q c e),
    )

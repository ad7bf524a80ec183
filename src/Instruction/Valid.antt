-- ===== src/Instruction/Valid.antt =====
-- arm_instruction.c: the main invariant.
use arm_simulator.Base.{
  ℕ, zero, ◌^◌, ◌<◌, refl, arith, u8, add32, ◌==◌, Option, some, Bool-cases, inl, inr,
}
use arm_simulator.Constants.{undefined_instruction}
use arm_simulator.Core.{Arm, Target, value_local, arm_fetch}
use arm_simulator.Core.Valid.{IsValid, fetch-IsValid, fetch-lt}
use arm_simulator.Exception.{arm_exception}
use arm_simulator.Exception.Valid.{arm_exception-IsValid}
use arm_simulator.Branch.Valid.{
  arm_branch-IsValid, arm_miscellaneous-IsValid, arm_coprocessor_others_swi-IsValid,
}
use arm_simulator.Branch.{arm_branch, arm_coprocessor_others_swi}
use arm_simulator.DataProcessing.{arm_data_processing_immediate_msr}
use arm_simulator.DataProcessing.Valid.{
  arm_data_processing_immediate_msr-IsValid, arm_data_processing_shift-IsValid,
}
use arm_simulator.LoadStore.{arm_load_store, arm_coprocessor_load_store}
use arm_simulator.LoadStore.Valid.{arm_load_store-IsValid}
use arm_simulator.LoadStore.Multiple.Valid.{Returns, arm_load_store_multiple-Returns}
use arm_simulator.Instruction.{execute_000, execute_decoded, arm_execute_instruction, arm_step}

-- `Returns` behind a constructor, so that a split into cases takes it whole.
data Good (size cycle : ℕ) (o : Option (ℕ × Arm)) : Type 0 where
  good : Returns size cycle o → Good size cycle o

Good-Returns : {size cycle : ℕ} {o : Option (ℕ × Arm)} → Good size cycle o → Returns size cycle o
Good-Returns (good r) = r

module _ {size cycle : ℕ} {p : Arm} (t : Target) (ins : ℕ) (v : IsValid size cycle p)
    (h : ins < 2 ^ 32) where
  execute_000-IsValid : IsValid size cycle (execute_000 t p ins).1
  unfolding execute_000
  execute_000-IsValid = ground (
    arith,
    v,
    arm_load_store-IsValid v t ins,
    arm_miscellaneous-IsValid v ins,
    arm_data_processing_shift-IsValid v t ins h,
  )

  returned : (r : ℕ × Arm) → IsValid size cycle r.1 → Good size cycle (some r)
  returned r w = good (r, refl, w)

  execute_decoded-Good : Good size cycle (execute_decoded t p ins)
  unfolding execute_decoded arm_coprocessor_load_store
  execute_decoded-Good = ground (
    arith,
    returned (undefined_instruction, p) v,
    returned (execute_000 t p ins) execute_000-IsValid,
    returned (arm_data_processing_immediate_msr t p ins)
        (arm_data_processing_immediate_msr-IsValid v t ins h),
    returned (arm_load_store t p ins) (arm_load_store-IsValid v t ins),
    good (arm_load_store_multiple-Returns t ins v),
    returned (arm_branch p ins) (arm_branch-IsValid v ins),
    returned (arm_coprocessor_others_swi p ins) (arm_coprocessor_others_swi-IsValid v ins),
  )

module _ {size cycle : ℕ} {p : Arm} (t : Target) (v : IsValid size cycle p) where
  -- An instruction returns and keeps the processor valid.
  pub arm_execute_instruction-Returns : Returns size (add32 cycle 1) (arm_execute_instruction t p)
  unfolding arm_execute_instruction
  arm_execute_instruction-Returns =
      let any = t.uninit value_local p in
      let (_, instruction, p1) = arm_fetch t p any in
      let w = fetch-IsValid v t any in
      Good-Returns (
        ground (
          arith,
          execute_decoded-Good t instruction w (fetch-lt v t any (t.uninit-lt value_local p)),
          returned t instruction w (fetch-lt v t any (t.uninit-lt value_local p)) (zero, p1) w,
        ))

  -- From every valid state a step returns a status and a valid state: no assertion ends the
  -- process, every register and status word stays a uint32_t, every memory byte a byte, the memory
  -- keeps its size, and the cycle counter goes up by exactly one, modulo 2^32.
  pub arm_step-Returns : Returns size (add32 cycle 1) (arm_step t p)
  unfolding arm_step
  arm_step-Returns =
      let (r, e, w) = arm_execute_instruction-Returns in
      rw (e, arm_step)
        (elim (Bool-cases (r.0 == 0)) [
          | inl z ↦ rw z ((r.0, r.1), refl, w)
          | inr z ↦ rw z (arm_exception t r.1 (u8 r.0), refl, arm_exception-IsValid w t (u8 r.0))
        ])

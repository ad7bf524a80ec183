-- ===== src/Branch/Valid.antt =====
-- arm_branch_other.c: the invariant of the processor.
use arm_simulator.Base.{ℕ, arith, add32, sub32, shl32, shr32, u8, bit_and}
use arm_simulator.Core.{
  Arm, arm_read_register, arm_read_cpsr, arm_read_spsr, arm_current_mode_has_spsr,
}
use arm_simulator.Core.Valid.{
  IsValid, write_register-IsValid, has_spsr-IsValid, read_spsr-lt, read_cpsr-lt,
}
use arm_simulator.Branch.{
  arm_branch, arm_miscellaneous, arm_coprocessor_others_swi, branch_offset, rd_index,
}

module _ {size cycle : ℕ} {p : Arm} (v : IsValid size cycle p) (ins : ℕ) where
  pub arm_branch-IsValid : IsValid size cycle (arm_branch p ins).1
  unfolding arm_branch
  arm_branch-IsValid =
      let linked = write_register-IsValid v 14 (sub32 (arm_read_register p 15) 4) (omega arith) in
      let target = add32 (arm_read_register p 15) (branch_offset ins) in
      ground (arith, v, write_register-IsValid v 15 target, write_register-IsValid linked 15 target)

  pub arm_coprocessor_others_swi-IsValid : IsValid size cycle (arm_coprocessor_others_swi p ins).1
  unfolding arm_coprocessor_others_swi
  arm_coprocessor_others_swi-IsValid = ground (arith, v)

  pub arm_miscellaneous-IsValid : IsValid size cycle (arm_miscellaneous p ins).1
  unfolding arm_miscellaneous
  arm_miscellaneous-IsValid =
      let w = has_spsr-IsValid v in
      let rd = u8 (shr32 (bit_and ins (shl32 15 rd_index)) rd_index) in
      ground (
        arith,
        v,
        w,
        write_register-IsValid v rd (arm_read_cpsr p) (read_cpsr-lt v),
        write_register-IsValid w rd (arm_read_spsr (arm_current_mode_has_spsr p).1)
            (read_spsr-lt w),
      )

-- ===== src/Branch/Confined.antt =====
-- arm_branch_other.c in user mode.
use arm_simulator.Base.{ℕ, arith, add32, sub32, shl32, shr32, u8, bit_and}
use arm_simulator.Registers.{Registers}
use arm_simulator.Core.{
  Arm, arm_read_register, arm_read_cpsr, arm_read_spsr, arm_current_mode_has_spsr,
}
use arm_simulator.Core.Confined.{Confined, write_register-Confined, has_spsr-Confined}
use arm_simulator.Branch.{
  arm_branch, arm_miscellaneous, arm_coprocessor_others_swi, branch_offset, rd_index,
}

module _ {r : Registers} {p : Arm} (c : Confined r p) (ins : ℕ) where
  pub arm_branch-Confined : Confined r (arm_branch p ins).1
  unfolding arm_branch
  arm_branch-Confined =
      let linked = write_register-Confined c 14 (sub32 (arm_read_register p 15) 4) in
      let target = add32 (arm_read_register p 15) (branch_offset ins) in
      ground
        (arith, c, write_register-Confined c 15 target, write_register-Confined linked 15 target)

  pub arm_coprocessor_others_swi-Confined : Confined r (arm_coprocessor_others_swi p ins).1
  unfolding arm_coprocessor_others_swi
  arm_coprocessor_others_swi-Confined = ground (arith, c)

  pub arm_miscellaneous-Confined : Confined r (arm_miscellaneous p ins).1
  unfolding arm_miscellaneous
  arm_miscellaneous-Confined =
      let w = has_spsr-Confined c in
      let rd = u8 (shr32 (bit_and ins (shl32 15 rd_index)) rd_index) in
      ground (
        arith,
        c,
        w,
        write_register-Confined c rd (arm_read_cpsr p),
        write_register-Confined w rd (arm_read_spsr (arm_current_mode_has_spsr p).1),
      )

-- ===== src/Exception/Valid.antt =====
-- arm_exception.c: the invariant of the processor.
use arm_simulator.Base.{ℕ, ◌^◌, ◌<◌, arith, add32, ◌∷◌}
use arm_simulator.Util.{clr_bit}
use arm_simulator.Core.{Arm, Target, arm_read_register, arm_write_cpsr, arm_write_register}
use arm_simulator.Core.Valid.{
  IsValid, valid, write_register-IsValid, write_spsr-IsValid, write_cpsr-IsValid, read_register-lt,
  read_cpsr-lt,
}
use arm_simulator.Exception.{enter, raise_exception, arm_exception, exception_cpsr}

clr-lt : clr_bit exception_cpsr 6 < 2 ^ 32
unfolding clr_bit
clr-lt = omega arith

printed-IsValid :
    {size cycle : ℕ} {p : Arm} (c : ℕ)
    → IsValid size cycle p
    → IsValid size cycle (record p { output = c ∷ p.output })
printed-IsValid c (valid v) = valid (record {
  registers = v.registers;
  bytes = v.bytes;
  memory = v.memory;
  same_size = v.same_size;
  same_cycle = v.same_cycle;
})

module _ {size cycle : ℕ} {p : Arm} (v : IsValid size cycle p) where
  enter-IsValid :
      (pc cpsr vector : ℕ)
      → pc < 2 ^ 32
      → cpsr < 2 ^ 32
      → vector < 2 ^ 32
      → IsValid size cycle (enter p pc cpsr vector)
  unfolding enter
  enter-IsValid pc cpsr vector a b c =
      let v1 = write_register-IsValid v 14 pc a in
      let v2 = write_spsr-IsValid v1 _ (read_cpsr-lt v1) in
      write_register-IsValid (write_cpsr-IsValid v2 cpsr b) 15 vector c

  reset-IsValid : IsValid size cycle (arm_write_register (arm_write_cpsr p exception_cpsr) 15 0)
  reset-IsValid =
      write_register-IsValid (write_cpsr-IsValid v exception_cpsr (omega arith)) 15 0 (omega arith)

  pub raise_exception-IsValid : (exception : ℕ) → IsValid size cycle (raise_exception p exception)
  unfolding raise_exception
  raise_exception-IsValid exception =
      let pc = arm_read_register p 15 in
      let masked = clr_bit exception_cpsr 6 in
      ground (
        arith,
        v,
        clr-lt,
        reset-IsValid,
        enter-IsValid (add32 pc 4) exception_cpsr 0x1C,
        enter-IsValid (add32 pc 4) masked 0x18,
        enter-IsValid pc masked 0x04 (read_register-lt v 15),
        enter-IsValid (add32 pc 4) masked 0x0C,
        enter-IsValid (add32 pc 8) masked 0x10,
      )

  pub arm_exception-IsValid :
      (t : Target) (exception : ℕ) → IsValid size cycle (arm_exception t p exception).1
  unfolding arm_exception
  arm_exception-IsValid t exception =
      ground
        (arith, v, raise_exception-IsValid exception, printed-IsValid (arm_read_register p 0) v)
